-- ===== src/Lru/Refines.antt =====
-- Each method of lru.go does to the list of entries, and returns, what the specification says.
use go_cachex.Base.{
  ℕ, zero, suc, ◌+◌, ◌≤◌, ◌<◌, ◌≡◌, refl, sym, inl, inr, Bool, true, none, some, List, [], ◌∷◌, ℤ,
  pos, negsuc, length, take, arith, dec_lt, drop_last, take_of_length-le, take-drop_last,
}
use go_cachex.Cache.{Str, Slice, to_string}
use go_cachex.Table.{
  lookup, delete, assign, deref, unlink, back, move_to_front, locate, drop_key, contents,
  IsCoherent, contents-unlink, length-unlink, remove-IsCoherent, front-IsCoherent, push-IsCoherent,
  resolve, move_to_front-store, back-cons, length-contents, contents-unlink-back, back-deref,
}
use go_cachex.Lru.Defs.{
  Lru, Entry, get, get_ttl, remove_element, push_new, evict, set_with_ttl, del, copy_bytes,
  expiry_at, batch_one, batch_loop, batch_get, close, new_lru, if_le_zero, default_max_entries,
}
use go_cachex.Lru.Spec.{
  key_of, view, IsValid, Agrees, spec_get, spec_get_ttl, spec_set, spec_del, spec_batch_one,
  spec_batch_loop, spec_batch_get, spec_close,
}

evict_full :
    (g : Lru) (p : ℕ) (last : Entry)
    → back g.ll ≡ some (p, last)
    → g.max_entries < length g.ll
    → 0 < g.max_entries
    → evict g ≡ remove_element p last.key g
unfolding evict remove_element
evict_full g p last b over positive = ground arith

evict_room : (g : Lru) → length g.ll ≤ g.max_entries → evict g ≡ g
unfolding evict
evict_room g fits = ground arith

module _ (h : Lru) (v : IsValid h) where
  module _ (p : ℕ) (e : Entry) (found : deref p h.ll ≡ some e) where
    pub remove_element-Agrees :
        IsValid (remove_element p e.key h)
        × (view (remove_element p e.key h)
            ≡ record (view h) { items = drop_key key_of e.key (contents h.ll) })
    unfolding remove_element
    remove_element-Agrees = (
      record {
        coherent = remove-IsCoherent key_of v.coherent p e found;
        bounded = omega (arith, v.bounded, length-unlink p e h.ll found);
        positive = v.positive;
      },
      ground (arith, contents-unlink key_of p e h.ll v.coherent.distinct found),
    )

    pub to_front-Agrees :
        (e' : Entry)
        → e'.key ≡ e.key
        → IsValid (record h { ll = (p, e') ∷ unlink p h.ll })
          × (view (record h { ll = (p, e') ∷ unlink p h.ll })
              ≡ record (view h) { items = e' ∷ drop_key key_of e.key (contents h.ll) })
    to_front-Agrees e' keyed = (
      record {
        coherent = front-IsCoherent key_of v.coherent p e e' found keyed;
        bounded = omega (arith, v.bounded, length-unlink p e h.ll found);
        positive = v.positive;
      },
      ground (arith, contents-unlink key_of p e h.ll v.coherent.distinct found),
    )

  pub get-Agrees : (now : ℕ) (key : Slice) → Agrees (get now key h) (spec_get now key (view h))
  unfolding get spec_get move_to_front
  get-Agrees now key = elim (resolve key_of v.coherent (to_string key)) [
    | inl (miss, unseen) ↦ ground (arith, v)
    | inr (p, e, hit, found, keyed, seen) ↦
        ground (arith, v, remove_element-Agrees p e found, to_front-Agrees p e found e refl)
  ]

  pub get_ttl-Agrees :
      (now later : ℕ) (key : Slice)
      → Agrees (get_ttl now later key h) (spec_get_ttl now later key (view h))
  unfolding get_ttl spec_get_ttl
  get_ttl-Agrees now later key = elim (resolve key_of v.coherent (to_string key)) [
    | inl (miss, unseen) ↦ ground (arith, v)
    | inr (p, e, hit, found, keyed, seen) ↦ ground (arith, v, remove_element-Agrees p e found)
  ]

  pub del-Agrees : (key : Slice) → Agrees (del key h) (spec_del key (view h))
  unfolding del spec_del
  del-Agrees key = elim (resolve key_of v.coherent (to_string key)) [
    | inl (miss, unseen) ↦ ground (arith, v)
    | inr (p, e, hit, found, keyed, seen) ↦
        let gone = remove_element-Agrees p e found in rw (sym keyed) (ground (arith, v, gone))
  ]

  pub batch_one-Agrees :
      (now : ℕ) (key : Slice) → Agrees (batch_one now key h) (spec_batch_one now key (view h))
  unfolding batch_one spec_batch_one move_to_front
  batch_one-Agrees now key = elim (resolve key_of v.coherent (to_string key)) [
    | inl (miss, unseen) ↦ ground (arith, v)
    | inr (p, e, hit, found, keyed, seen) ↦
        ground (arith, v, remove_element-Agrees p e found, to_front-Agrees p e found e refl)
  ]

  cleared-IsValid : (shut : Bool) → IsValid (record h { is_closed = shut; ll = []; cache = [] })
  unfolding lookup locate
  cleared-IsValid shut = record {
    coherent = record { agrees = λ k. refl; distinct = tt; allocated = tt };
    bounded = omega arith;
    positive = v.positive;
  }

  pub close-Agrees : IsValid (close h) × (view (close h) ≡ spec_close (view h))
  unfolding close spec_close
  close-Agrees = ground (arith, v, cleared-IsValid true)

  -- A list that is one entry too long loses its last one, and the map with it.
  evict_back :
      (e : Entry) (p : ℕ) (last : Entry) (m : List (Str × ℕ)) (n : ℕ)
      → IsCoherent key_of m ((h.next, e) ∷ h.ll) n
      → back ((h.next, e) ∷ h.ll) ≡ some (p, last)
      → (contents (unlink p ((h.next, e) ∷ h.ll)) ≡ drop_last (e ∷ contents h.ll))
        × (length (unlink p ((h.next, e) ∷ h.ll)) + 1 ≡ length ((h.next, e) ∷ h.ll))
        × IsCoherent key_of (delete last.key m) (unlink p ((h.next, e) ∷ h.ll)) n
  evict_back e p last m n c b =
      let found = back-deref key_of p last ((h.next, e) ∷ h.ll) c.distinct b in
      (
        contents-unlink-back key_of p last ((h.next, e) ∷ h.ll) c.distinct b,
        length-unlink p last ((h.next, e) ∷ h.ll) found,
        remove-IsCoherent key_of c p last found,
      )

  push_new-Agrees :
      (now : ℕ) (k : Str) (value : Slice) (ttl : ℤ)
      → lookup k h.cache ≡ none
      → let e : Entry = record { key = k; value = copy_bytes value; expiry = expiry_at now ttl } in
        IsValid (push_new now k value ttl h)
        × (view (push_new now k value ttl h)
            ≡ record (view h) { items = take h.max_entries (e ∷ contents h.ll) })
  unfolding push_new remove_element
  push_new-Agrees now k value ttl miss =
      let e : Entry = record { key = k; value = copy_bytes value; expiry = expiry_at now ttl } in
      let g : Lru = record h {
        ll = (h.next, e) ∷ h.ll;
        cache = assign k h.next h.cache;
        next = h.next + 1;
      } in
      let c = push-IsCoherent key_of v.coherent e miss in
      let ((p, last), b) = back-cons (h.next, e) h.ll in
      let (shorter, counted, kept) =
        evict_back e p last (assign k h.next h.cache) (h.next + 1) c b in
      let same = length-contents h.ll in
      elim (dec_lt h.max_entries (length h.ll + 1)) [
        | yes full ↦
            let cut = take-drop_last h.max_entries (e ∷ contents h.ll) (omega arith) in
            rw (evict_full g p last b (omega arith) v.positive, push_new)
              (
                record { coherent = kept; bounded = omega arith; positive = v.positive },
                ground arith,
              )
        | no room ↦
            let whole = take_of_length-le h.max_entries (e ∷ contents h.ll) (omega arith) in
            rw (evict_room g (omega arith), push_new)
              (record { coherent = c; bounded = omega arith; positive = v.positive }, ground arith)
      ]

  pub set-Agrees :
      (now : ℕ) (key value : Slice) (ttl : ℤ)
      → Agrees (set_with_ttl now key value ttl h) (spec_set now key value ttl (view h))
  unfolding set_with_ttl spec_set
  set-Agrees now key value ttl = elim (resolve key_of v.coherent (to_string key)) [
    | inl (miss, unseen) ↦ ground (arith, v, push_new-Agrees now (to_string key) value ttl miss)
    | inr (p, e, hit, found, keyed, seen) ↦
        let e' : Entry = record e { value = copy_bytes value; expiry = expiry_at now ttl } in
        ground (arith, v, move_to_front-store p e' e h.ll found, to_front-Agrees p e found e' refl)
  ]

pub batch_loop-Agrees :
    (keys : List (ℕ × Slice)) (h : Lru)
    → IsValid h
    → Agrees (batch_loop keys h) (spec_batch_loop keys (view h))
unfolding batch_loop spec_batch_loop
batch_loop-Agrees [] h v = (v, refl, refl)
batch_loop-Agrees ((now, key) ∷ keys) h v =
    let one = batch_one-Agrees h v now key in
    let rest = batch_loop-Agrees keys (batch_one now key h).0 one.0 in ground (arith, one, rest)

pub batch_get-Agrees :
    (keys : List (ℕ × Slice)) (h : Lru)
    → IsValid h
    → Agrees (batch_get keys h) (spec_batch_get keys (view h))
unfolding batch_get spec_batch_get
batch_get-Agrees keys h v = ground (arith, v, batch_loop-Agrees keys h v)

if_le_zero_pos : (n : ℤ) → 0 < if_le_zero n default_max_entries
unfolding if_le_zero
if_le_zero_pos (pos zero) = omega arith
if_le_zero_pos (pos (suc n)) = omega arith
if_le_zero_pos (negsuc n) = omega arith

pub new_lru-IsValid : (n : ℤ) → IsValid (new_lru n)
unfolding new_lru lookup locate
new_lru-IsValid n = record {
  coherent = record { agrees = λ k. refl; distinct = tt; allocated = tt };
  bounded = omega arith;
  positive = if_le_zero_pos n;
}
