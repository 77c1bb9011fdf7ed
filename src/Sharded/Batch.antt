-- ===== src/Sharded/Batch.antt =====
-- sharded.go: `BatchGetWithCtx`, which asks each shard for its own keys. The goroutines work on different
-- shards, and their results go to different places, so that their order does not matter.
use go_cachex.Base.{
  ℕ, zero, suc, ◌≡◌, refl, ap, ◌∙◌, none, some, List, [], ◌∷◌, length, ◌==◌, if◌then◌else◌,
}
use go_cachex.Cache.{Result, ok, Slice}
use go_cachex.Handler.{Handler}
use go_cachex.Sharded.Defs.{Sharded, shard_for, nth, put_nth, replicate}

-- `shardGroups[i]`: the places of the keys of the shard.
unfoldable pub places_of : (Slice → ℕ) → ℕ → ℕ → List Slice → List ℕ
places_of shard i p [] = []
places_of shard i p (k ∷ ks) =
    let rest = places_of shard i (suc p) ks in if shard k == i then p ∷ rest else rest

unfoldable pub pick : List Slice → List ℕ → List Slice
pick keys [] = []
pick keys (p ∷ ps) =
    let rest = pick keys ps in elim (nth keys p) [ none ↦ rest | some k ↦ k ∷ rest ]

-- A handler returns one result for each key.
unfoldable pub scatter {ℓ} : {A : Type ℓ} → List ℕ → List A → List A → List A
scatter [] rs out = out
scatter (p ∷ ps) [] out = out
scatter (p ∷ ps) (r ∷ rs) out = scatter ps rs (put_nth out p r)

length-put_nth {ℓ} : {A : Type ℓ} (l : List A) (i : ℕ) (x : A) → length (put_nth l i x) ≡ length l
length-put_nth [] i x = refl
length-put_nth (y ∷ l) zero x = refl
length-put_nth (y ∷ l) (suc i) x = ap suc (length-put_nth l i x)

length-scatter {ℓ} :
    {A : Type ℓ} (ps : List ℕ) (rs out : List A) → length (scatter ps rs out) ≡ length out
unfolding scatter
length-scatter [] rs out = refl
length-scatter (p ∷ ps) [] out = refl
length-scatter (p ∷ ps) (r ∷ rs) out =
    length-scatter ps rs (put_nth out p r) ∙ length-put_nth out p r

length-replicate {ℓ} : {A : Type ℓ} (n : ℕ) (x : A) → length (replicate n x) ≡ n
length-replicate zero x = refl
length-replicate (suc n) x = ap suc (length-replicate n x)

module _ (a : Handler) where
  -- From the shard with the number `i` on; a shard without keys is not asked.
  unfoldable pub gather :
      ℕ
      → List Slice
      → (Slice → ℕ)
      → ℕ
      → List a.State
      → List (Result Slice)
      → List a.State × List (Result Slice)
  unfolding places_of pick scatter
  gather now keys shard i [] out = ([], out)
  gather now keys shard i (s ∷ ss) out = elim (places_of shard i 0 keys) [
    | [] ↦ let (ss', out') = gather now keys shard (suc i) ss out in (s ∷ ss', out')
    | p ∷ ps ↦
        let (s', rs) = a.batch_get now (pick keys (p ∷ ps)) s in
        let (ss', out') = gather now keys shard (suc i) ss (scatter (p ∷ ps) rs out) in
        (s' ∷ ss', out')
  ]

  unfoldable pub batch_get : ℕ → List Slice → Sharded a → Sharded a × List (Result Slice)
  unfolding gather
  batch_get now keys h =
      let (ss, out) =
        gather now keys (shard_for a h) 0 h.shards (replicate (length keys) (ok none)) in
      (record h { shards = ss }, out)

  length-gather :
      (now : ℕ) (keys : List Slice) (shard : Slice → ℕ) (i : ℕ) (ss : List a.State)
      → (out : List (Result Slice)) → length (gather now keys shard i ss out).1 ≡ length out
  unfolding gather
  length-gather now keys shard i [] out = refl
  length-gather now keys shard i (s ∷ ss) out =
      elim (places_of shard i 0 keys)
        as (λ l.
          length
            (elim l as (λ _. List a.State × List (Result Slice)) [
              | [] ↦ let (ss', out') = gather now keys shard (suc i) ss out in (s ∷ ss', out')
              | p ∷ ps ↦
                  let (s', rs) = a.batch_get now (pick keys (p ∷ ps)) s in
                  let (ss', out') = gather now keys shard (suc i) ss (scatter (p ∷ ps) rs out) in
                  (s' ∷ ss', out')
            ]).1
          ≡ length out) [
            | [] ↦ length-gather now keys shard (suc i) ss out
            | p ∷ ps ↦
                let rs = (a.batch_get now (pick keys (p ∷ ps)) s).1 in
                length-gather now keys shard (suc i) ss (scatter (p ∷ ps) rs out)
                ∙ length-scatter (p ∷ ps) rs out
          ]

  -- There is one result for each key, whatever the shards return.
  pub length-batch_get :
      (now : ℕ) (keys : List Slice) (h : Sharded a) → length (batch_get now keys h).1 ≡ length keys
  unfolding batch_get
  length-batch_get now keys h =
      length-gather now keys (shard_for a h) 0 h.shards (replicate (length keys) (ok none))
      ∙ length-replicate (length keys) (ok none)
