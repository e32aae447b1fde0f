-- ===== src/Cache/Stale.antt =====
-- What a cached call may be answered with: a value of its own function, for its own arguments, that
-- is no older than its time to live.
use dymension_rollapp_block.Common.{
  ℕ, ◌+◌, ◌≤◌, ◌≡◌, ◌≢◌, refl, sym, ap, ◌∙◌, ◌⊎◌, inl, inr, Bool, some, List, [], ◌∷◌, Member, here,
  there, member_cases, ltb, arith, Bool-cases, Option-cases,
}
use mathlib.Core.Path.{subst}
use dymension_rollapp_block.Common.Text.{Str, ◌===◌, ===_iff, eq_of_===}
use dymension_rollapp_block.Cache.{
  NodeCache, Call, Outcome, Machine, Event, waits, calls, settles, fails, taken, cache_key,
  call_cached, settle_call, step, play, start,
}
use dymension_rollapp_block.Cache.Taken.{taken_member}
use dymension_rollapp_block.Cache.Keys.{IsPlain, IsStringify, cache_key-apart}

-- The keys of the calls of a history have no bracket.
abbrev pub ArePlain : {A V : Type 0} → List (Event A V) → Type 0
ArePlain [] = Unit
ArePlain (calls key args revalidate ∷ events) = IsPlain key × ArePlain events
ArePlain (waits n ∷ events) = ArePlain events
ArePlain (settles i v ∷ events) = ArePlain events
ArePlain (fails i ∷ events) = ArePlain events

-- A call's function settled with a value, at a time from which the value may be shown at `t`.
abbrev pub Supports : {A V : Type 0} → List (Outcome A V) → Call A → V → ℕ → Type 0
Supports {A} {V} settled c v t =
    (o : Outcome A V) × Member o settled
    × (o.key ≡ c.key)
    × (o.args ≡ c.args)
    × (o.value ≡ v)
    × (o.at ≤ t)
    × (t ≤ o.at + o.ttl)

grown :
    {A V : Type 0} (settled : List (Outcome A V)) (new : Outcome A V) (c : Call A) (v : V) (t : ℕ)
    → Supports settled c v t
    → Supports (new ∷ settled) c v t
grown settled new c v t s = (s.0, there s.1, s.2, s.3, s.4, s.5, s.6)

module _ {A V : Type 0} (truthy : V → Bool) (stringify : A → Str) (node : NodeCache V)
    (faithful : IsStringify stringify) where
  open node use {
    Store, empty, find, put, find-empty, find-put_other, find-put_expired, find-put_value,
  }

  -- The invariant of the machine.
  pub record IsSound (m : Machine A V Store) : Type 0 where
    pub pending_plain : (c : Call A) → Member c m.pending → IsPlain c.key
    pub stored :
        (c : Call A) (t : ℕ) (v : V)
        → IsPlain c.key
        → m.now ≤ t
        → find m.store t (cache_key stringify c.key c.args) ≡ some v
        → Supports m.settled c v t
    pub answers : (a : Outcome A V) → Member a m.answered → Supports m.settled a.call a.value a.at

  start-IsSound : IsSound (start truthy stringify node)
  start-IsSound = record {
    pending_plain = λ c m. elim m [ ];
    stored =
        λ c t v p h e. absurd (ground (arith, find-empty t (cache_key stringify c.key c.args)));
    answers = λ a m. elim m [ ];
  }

  -- What is found behind a write.
  found_behind :
      (s : Store) (t0 t ttl : ℕ) (k j : Str) (v w : V)
      → find (put s t0 k v ttl) t j ≡ some w
      → ((k ≡ j) × (v ≡ w) × (t ≤ t0 + ttl)) ⊎ (find s t j ≡ some w)
  found_behind s t0 t ttl k j v w e = elim (Bool-cases (k === j)) [
    | inl same ↦
        let is : k ≡ j = eq_of_=== k j same in
        let at_k : find (put s t0 k v ttl) t k ≡ some w =
          ap (λ x. find (put s t0 k v ttl) t x) is ∙ e in
        elim (Bool-cases (ltb (t0 + ttl) t)) [
          | inl late ↦
              let gone = find-put_expired s t0 t ttl k v (ground arith) in absurd (ground arith)
          | inr in_time ↦ inl (is, find-put_value s t0 t ttl k v w at_k, ground arith)
        ]
    | inr other ↦
        let ne : k ≢ j = λ x. ground (arith, ===_iff k j) in
        inr (sym (find-put_other s t0 t ttl k j v ne) ∙ e)
  ]

  abbrev settled_now : Machine A V Store → Call A → V → Outcome A V
  settled_now m c v = record { call = c; value = v; at = m.now }

  settle_call-IsSound :
      (m : Machine A V Store) (c : Call A) (others : List (Call A)) (v : V)
      → IsSound m
      → IsPlain c.key
      → ((d : Call A) → Member d others → Member d m.pending)
      → IsSound (settle_call truthy stringify node m c others v)
  unfolding settle_call
  settle_call-IsSound m c others v h plain sub = record {
    pending_plain = λ d i. h.pending_plain d (sub d i);
    stored = λ d t w p later e.
        elim (found_behind m.store m.now t c.ttl (cache_key stringify c.key c.args)
          (cache_key stringify d.key d.args) v w e) [
            | inl (is, same, in_time) ↦
                let (keys, args) =
                  cache_key-apart stringify c.key d.key c.args d.args faithful plain p is in
                (settled_now m c v, here, keys, args, same, later, in_time)
            | inr before ↦ grown m.settled (settled_now m c v) d w t (h.stored d t w p later before)
          ];
    answers = λ a i. elim (member_cases a (settled_now m c v) m.answered i) [
      | inl now ↦
          subst (λ b. Supports (settled_now m c v ∷ m.settled) b.call b.value b.at) now
            (settled_now m c v, here, refl, refl, refl, omega arith, omega arith)
      | inr before ↦ grown m.settled (settled_now m c v) a.call a.value a.at (h.answers a before)
    ];
  }

  wait-IsSound :
      (m : Machine A V Store) (n : ℕ) → IsSound m → IsSound (record m { now = m.now + n })
  wait-IsSound m n h = record {
    pending_plain = h.pending_plain;
    stored = λ c t v p later e. h.stored c t v p (omega arith) e;
    answers = h.answers;
  }

  pending-IsSound :
      (m : Machine A V Store) (pending : List (Call A))
      → IsSound m
      → ((d : Call A) → Member d pending → IsPlain d.key)
      → IsSound (record m { pending = pending })
  pending-IsSound m pending h p = record {
    pending_plain = p;
    stored = h.stored;
    answers = h.answers;
  }

  answer-IsSound :
      (m : Machine A V Store) (c : Call A) (v : V)
      → IsSound m
      → Supports m.settled c v m.now
      → IsSound (record m { answered = settled_now m c v ∷ m.answered })
  answer-IsSound m c v h supported = record {
    pending_plain = h.pending_plain;
    stored = h.stored;
    answers = λ a i. elim (member_cases a (settled_now m c v) m.answered i) [
      | inl now ↦ subst (λ b. Supports m.settled b.call b.value b.at) now supported
      | inr before ↦ h.answers a before
    ];
  }

  added-IsSound :
      (m : Machine A V Store) (c : Call A)
      → IsSound m
      → IsPlain c.key
      → IsSound (record m { pending = c ∷ m.pending })
  added-IsSound m c h plain = pending-IsSound m (c ∷ m.pending) h (λ d i.
      elim (member_cases d c m.pending i) [
        | inl first ↦ subst (λ x. IsPlain x.key) first plain
        | inr before ↦ h.pending_plain d before
      ])

  call_cached-IsSound :
      (m : Machine A V Store) (c : Call A)
      → IsSound m
      → IsPlain c.key
      → IsSound (call_cached truthy stringify node m c)
  unfolding call_cached
  call_cached-IsSound m c h plain =
      elim (Option-cases (find m.store m.now (cache_key stringify c.key c.args))) [
        | inl missing ↦ rw (missing, call_cached) (added-IsSound m c h plain)
        | inr (v, found) ↦ elim (Bool-cases (truthy v)) [
          | inl shown ↦
              rw (found, call_cached, shown)
                (answer-IsSound m c v h (h.stored c m.now v plain (omega arith) found))
          | inr passed ↦ rw (found, call_cached, passed) (added-IsSound m c h plain)
        ]
      ]

  step-IsSound :
      (m : Machine A V Store) (e : Event A V)
      → IsSound m
      → ArePlain (e ∷ [])
      → IsSound (step truthy stringify node m e)
  unfolding step
  step-IsSound m (waits n) h p = wait-IsSound m n h
  step-IsSound m (calls key args revalidate) h p = call_cached-IsSound m _ h p.0
  step-IsSound m (settles i v) h p = elim (Option-cases (taken m.pending i)) [
    | inl missing ↦ rw (missing, step) h
    | inr ((c, others), found) ↦
        let (at, sub) = taken_member m.pending i c others found in
        rw (found, step) (settle_call-IsSound m c others v h (h.pending_plain c at) sub)
  ]
  step-IsSound m (fails i) h p = elim (Option-cases (taken m.pending i)) [
    | inl missing ↦ rw (missing, step) h
    | inr ((c, others), found) ↦
        let (at, sub) = taken_member m.pending i c others found in
        rw (found, step) (pending-IsSound m others h (λ d j. h.pending_plain d (sub d j)))
  ]

  play-IsSound :
      (events : List (Event A V)) (m : Machine A V Store)
      → IsSound m
      → ArePlain events
      → IsSound (play truthy stringify node m events)
  unfolding play
  play-IsSound [] m h p = h
  play-IsSound (waits n ∷ events) m h p = play-IsSound events _ (step-IsSound m (waits n) h tt) p
  play-IsSound (calls key args revalidate ∷ events) m h (plain, p) =
      play-IsSound events _ (step-IsSound m (calls key args revalidate) h (plain, tt)) p
  play-IsSound (settles i v ∷ events) m h p =
      play-IsSound events _ (step-IsSound m (settles i v) h tt) p
  play-IsSound (fails i ∷ events) m h p = play-IsSound events _ (step-IsSound m (fails i) h tt) p

  -- In any history of calls that wait, overlap, settle and fail, every answer of a cached call is a
  -- value with which the call's own function settled for the call's own arguments, and it is given
  -- no later than the time to live of that settlement allows.
  pub answers_supported :
      (events : List (Event A V)) (a : Outcome A V)
      → ArePlain events
      → Member a (play truthy stringify node (start truthy stringify node) events).answered
      → Supports
          (play truthy stringify node (start truthy stringify node) events).settled
          a.call
          a.value
          a.at
  answers_supported events a p m =
      (play-IsSound events (start truthy stringify node) start-IsSound p).answers a m
