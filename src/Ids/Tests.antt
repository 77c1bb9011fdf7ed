-- ===== src/Ids/Tests.antt =====
-- id_generator.go over counters in memory that never expire.
use go_cachex.Base.{ℕ, ◌+◌, ◌≡◌, ◌≢◌, refl, true, some, List, [], ◌∷◌, pos, ℕ_discrete, arith}
use go_cachex.Cache.{Str, dec_str}
use go_cachex.Table.{lookup, assign, delete, lookup-assign}
use go_cachex.Redis.{Turn, delivered, good}
use go_cachex.Ids.Server.{Counters, IsCounters, or_zero}
use go_cachex.Ids.Defs.{
  IdGenerator, new_id_generator, with_separator, with_sequence_length, with_id_prefix,
  get_redis_key, format_id, generate_id, generate_ids,
}
use go_cachex.Ids.Format.{sequence_of, sequence_of-format_id}
use go_cachex.Ids.Unique.{generate_id_unique}

abbrev Table : Type 0
Table = List (Str × ℕ)

abbrev memory : Counters
memory = record {
  State = Table;
  count = λ now k m. lookup k m;
  set = λ now k n d m. assign k n m;
  incr_by = λ now k n m. (assign k (or_zero (lookup k m) + n) m, or_zero (lookup k m) + n);
  expire = λ now k d m. m;
  del = λ now k m. delete k m;
}

count-assign : (k : Str) (n : ℕ) (m : Table) → lookup k (assign k n m) ≡ some n
count-assign k n m = ground (arith, lookup-assign k k n m)

memory_counters : IsCounters memory
memory_counters = record {
  count-set = λ now k n d m. count-assign k n m;
  count-incr_by = λ now k n m. count-assign k (or_zero (lookup k m) + n) m;
  incr_by_lem = λ now k n m. refl;
  count-expire = λ now k d m. refl;
}

-- What a test has to compute with.
program : Unit {0}
unfolding new_id_generator with_separator with_sequence_length with_id_prefix get_redis_key
    format_id generate_id generate_ids lookup assign delete dec_str ℕ_discrete
program = tt

abbrev generator : IdGenerator
generator =
    with_id_prefix (b'A' ∷ [])
      (with_sequence_length 3 (with_separator (b'-' ∷ []) (new_id_generator true)))

abbrev hour : Str
hour = b'0' ∷ b'9' ∷ []

abbrev served : Turn
served = record { net = delivered; at = 0 }

abbrev id_of : ℕ → Str
id_of d = b'A' ∷ b'0' ∷ b'9' ∷ b'-' ∷ b'0' ∷ b'0' ∷ d ∷ []

-- Two numbers in one call, then one.
third_id :
    (generate_id memory served hour generator
      (generate_ids memory served hour (pos 2) generator []).0).1
    ≡ good (id_of b'3')
unfolding program
third_id = refl

first_id : (generate_id memory served hour generator []).1 ≡ good (id_of b'1')
unfolding program
first_id = refl

abbrev counted : Table
counted = (generate_id memory served hour generator []).0

second_id : (generate_id memory served hour generator counted).1 ≡ good (id_of b'2')
unfolding program
second_id = refl

key_counts : memory.count 0 (get_redis_key generator hour) counted ≡ some 1
unfolding program
key_counts = refl

generate_id_unique_example : id_of b'1' ≢ id_of b'2'
generate_id_unique_example =
    generate_id_unique memory memory_counters served served hour (id_of b'1') (id_of b'2') generator
      [] counted 1 1 first_id key_counts key_counts (omega arith) second_id

sequence_of-format_id_example :
    sequence_of generator hour (format_id generator hour 1234567) ≡ 1234567
sequence_of-format_id_example = sequence_of-format_id generator hour 1234567
