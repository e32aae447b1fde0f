-- ===== src/Tests/Caches.antt =====
-- A cache as a list of writes, the last one first.
use dymension_rollapp_block.Common.{
  ℕ, ◌+◌, ◌≤◌, ◌<◌, ◌≡◌, ◌≢◌, refl, Bool, Option, none, some, List, [], ◌∷◌, Member, here, ltb, leb,
  arith, if◌then◌else◌,
}
use dymension_rollapp_block.Common.Text.{Str, text, ◌===◌, ===_self, ===_iff}
use dymension_rollapp_block.Cache.{
  NodeCache, Call, Outcome, Event, waits, calls, settles, step, play, start, call_cached,
  settle_call, cache_key,
}
use dymension_rollapp_block.Cache.Keys.{IsStringify}
use dymension_rollapp_block.Cache.Stale.{ArePlain, Supports, answers_supported}

pub record Entry : Type 0 where
  pub key : Str
  pub value : ℕ
  pub until : ℕ

unfoldable look_up : List Entry → ℕ → Str → Option ℕ
unfolding ◌===◌
look_up [] now k = none
look_up (e ∷ entries) now k =
    let rest = look_up entries now k in
    if e.key === k then if leb now e.until then some e.value else none else rest

abbrev write : List Entry → ℕ → Str → ℕ → ℕ → List Entry
write s now k v ttl = record { key = k; value = v; until = now + ttl } ∷ s

write_other :
    (s : List Entry) (t now ttl : ℕ) (k j : Str) (v : ℕ)
    → k ≢ j
    → look_up (write s t k v ttl) now j ≡ look_up s now j
unfolding look_up
write_other s t now ttl k j v ne = ground (arith, ===_iff k j)

write_expired :
    (s : List Entry) (t now ttl : ℕ) (k : Str) (v : ℕ)
    → t + ttl < now
    → look_up (write s t k v ttl) now k ≡ none
unfolding look_up
write_expired s t now ttl k v late = ground (arith, ===_self k)

write_value :
    (s : List Entry) (t now ttl : ℕ) (k : Str) (v w : ℕ)
    → look_up (write s t k v ttl) now k ≡ some w
    → v ≡ w
unfolding look_up
write_value s t now ttl k v w e = ground (arith, ===_self k)

write_fresh :
    (s : List Entry) (t now ttl : ℕ) (k : Str) (v : ℕ)
    → t ≤ now
    → now < t + ttl
    → look_up (write s t k v ttl) now k ≡ some v
unfolding look_up
write_fresh s t now ttl k v h l = ground (arith, ===_self k)

none_written : (now : ℕ) (k : Str) → look_up [] now k ≡ none
unfolding look_up
none_written now k = refl

abbrev node : NodeCache ℕ
node = record {
  Store = List Entry;
  empty = [];
  find = look_up;
  put = write;
  find-empty = none_written;
  find-put_other = write_other;
  find-put_expired = write_expired;
  find-put_value = write_value;
  find-put_fresh = write_fresh;
}

abbrev is_positive : ℕ → Bool
is_positive n = ltb 0 n

abbrev bracketed : ℕ → Str
bracketed n = b'[' ∷ n ∷ []

faithful : IsStringify bracketed
faithful = record { bracket = λ a. (a ∷ [], refl); apart = λ a b e. ground arith }

-- A call settles, and 3 seconds later the same call is answered by the cache.
abbrev history : List (Event ℕ ℕ)
history = calls (text "c") 4 none ∷ settles 0 9 ∷ waits 3 ∷ calls (text "c") 4 none ∷ []

abbrev called : Call ℕ
called = record { key = text "c"; args = 4; ttl = 10 }

abbrev answered : Outcome ℕ ℕ
answered = record { call = called; value = 9; at = 3 }

plain_history : ArePlain history
plain_history = ((((λ e. ground arith), tt)), (((λ e. ground arith), tt), tt))

is_answered :
    Member answered
      (play is_positive bracketed node (start is_positive bracketed node) history).answered
unfolding play step look_up call_cached settle_call cache_key ◌===◌
is_answered = here

answers_supported_example :
    Supports
      (play is_positive bracketed node (start is_positive bracketed node) history).settled
      called
      9
      3
answers_supported_example =
    answers_supported is_positive bracketed node faithful history answered plain_history is_answered
