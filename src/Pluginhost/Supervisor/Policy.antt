-- ===== src/Pluginhost/Supervisor/Policy.antt =====
-- What the restart policy of core/pluginhost/supervisor.go promises.
use moduless.Base.{
  ℕ, zero, suc, ◌+◌, ◌*◌, ◌≤◌, ◌<◌, ◌≡◌, ◌≢◌, false, some, List, [], ◌∷◌, arith, All, length, ltb,
  leb, if◌then◌else◌, Bytes, lookup, Option-cases, Bool-cases, inl, inr, ap, ◌∙◌,
  lookup-insert_self,
}
use moduless.Pluginhost.Supervisor.{
  CrashRecord, Supervisor, too_many_crashes, backoff_from, Attempt, retrying, recover,
}

-- A backoff doubled `k` times, without a limit.
abbrev pub grown : ℕ → ℕ → ℕ
grown zero b = b
grown (suc k) b = grown k (b * 2)

grown-le : (k b : ℕ) → b ≤ grown k b
grown-le zero b = omega arith
grown-le (suc k) b = omega (arith, grown-le k (b * 2))

-- The delay before a restart is the initial backoff doubled once for each crash in the window after
-- the first, or the maximum if that is less. The initial backoff is not above the maximum, and the
-- maximum is below 2^62 nanoseconds.
pub backoff_from_lem :
    (max k b : ℕ)
    → b ≤ max
    → max < 4611686018427387904
    → backoff_from max k b ≡ (if ltb (grown k b) max then grown k b else max)
unfolding backoff_from
backoff_from_lem max zero b h m = ground arith
backoff_from_lem max (suc k) b h m =
    ground (arith, backoff_from_lem max k (b * 2), grown-le k (b * 2))

-- The crash table after crashes at the given times.
abbrev pub crash_all : Bytes → List ℕ → Supervisor → Supervisor
crash_all key [] s = s
crash_all key (t ∷ ts) s = crash_all key ts (too_many_crashes t key s).1

-- A crash of a plugin whose record is in its window.
too_many_crashes-in_window :
    (t : ℕ) (key : Bytes) (s : Supervisor) (rec : CrashRecord)
    → lookup key s.crashes ≡ some rec
    → t ≤ rec.first_at + s.cfg.crash_window
    → rec.count < 9223372036854775807
    → let (too_many, s') = too_many_crashes t key s in
      (too_many ≡ leb s.cfg.crash_threshold (rec.count + 1))
      × (lookup key s'.crashes ≡ some (record rec { count = rec.count + 1 }))
      × (s'.cfg ≡ s.cfg)
unfolding too_many_crashes
too_many_crashes-in_window t key s rec e h b =
    ground (arith, e, lookup-insert_self key (record rec { count = rec.count + 1 }) s.crashes)

-- A plugin without a record, or whose window is over: the crash starts a new window.
abbrev pub IsFresh : ℕ → Bytes → Supervisor → Type 0
IsFresh t key s =
    (rec : CrashRecord) → lookup key s.crashes ≡ some rec → rec.first_at + s.cfg.crash_window < t

too_many_crashes-IsFresh :
    (t : ℕ) (key : Bytes) (s : Supervisor)
    → IsFresh t key s
    → let (too_many, s') = too_many_crashes t key s in
      (too_many ≡ false)
      × (lookup key s'.crashes ≡ some (record { count = 1; first_at = t }))
      × (s'.cfg ≡ s.cfg)
unfolding too_many_crashes
too_many_crashes-IsFresh t key s f =
    let kept = lookup-insert_self key (record { count = 1; first_at = t }) s.crashes in
    elim (Option-cases (lookup key s.crashes)) [
      | inl e ↦ ground (arith, e, kept)
      | inr (rec, e) ↦ ground (arith, e, f rec e, kept)
    ]

-- Crashes in one window, which ends at `until`, are counted.
crash_all-in_window :
    (ts : List ℕ) (key : Bytes) (s : Supervisor) (rec : CrashRecord) (until : ℕ)
    → lookup key s.crashes ≡ some rec
    → rec.first_at + s.cfg.crash_window ≡ until
    → All (λ t. t ≤ until) ts
    → rec.count + length ts < 9223372036854775807
    → (lookup key (crash_all key ts s).crashes
        ≡ some (record rec { count = rec.count + length ts }))
      × ((crash_all key ts s).cfg ≡ s.cfg)
crash_all-in_window [] key s rec until e u a b = ground arith
crash_all-in_window (t ∷ ts) key s rec until e u a b =
    let one = too_many_crashes-in_window t key s rec e (omega (arith, u, a.0)) (omega (arith, b)) in
    let s' = (too_many_crashes t key s).1 in
    let more =
      crash_all-in_window ts key s' (record rec { count = rec.count + 1 }) until one.1
        (ap (λ c. rec.first_at + c.crash_window) one.2 ∙ u) a.1 (omega (arith, b)) in
    ground (arith, more, one.2)

-- The crashes of a plugin in one window are counted: after a first crash and those at the times `ts`,
-- all in the window that the first one opens, the next crash in it quarantines the plugin exactly if
-- the threshold is not above the number of crashes, of which there are then at least two and
-- fewer than 2^63.
pub crashes_quarantine :
    (key : Bytes) (first last : ℕ) (ts : List ℕ) (s : Supervisor)
    → IsFresh first key s
    → All (λ t. t ≤ first + s.cfg.crash_window) ts
    → last ≤ first + s.cfg.crash_window
    → 1 + length ts < 9223372036854775807
    → (too_many_crashes last key (crash_all key (first ∷ ts) s)).0
      ≡ leb s.cfg.crash_threshold (length ts + 2)
crashes_quarantine key first last ts s f a l b =
    let one = too_many_crashes-IsFresh first key s f in
    let s' = (too_many_crashes first key s).1 in
    let all =
      crash_all-in_window ts key s' (record { count = 1; first_at = first })
        (first + s.cfg.crash_window) one.1 (ap (λ c. first + c.crash_window) one.2) a b in
    let end =
      too_many_crashes-in_window last key (crash_all key ts s')
        (record { count = 1 + length ts; first_at = first }) all.0 (rw (all.1 ∙ one.2) l) b in
    ground (arith, end.0, ap (λ c. c.crash_threshold) (all.1 ∙ one.2))

module _ (key : Bytes) (until : ℕ) where
  recover_from_record :
      (as_ : List Attempt) (s : Supervisor) (rec : CrashRecord)
      → lookup key s.crashes ≡ some rec
      → rec.first_at + s.cfg.crash_window ≡ until
      → All (λ a. a.crashed_at ≤ until) as_
      → 0 < length as_
      → rec.count + length as_ < 9223372036854775807
      → s.cfg.crash_threshold ≤ rec.count + length as_
      → (recover key as_ s).0 ≢ retrying
  unfolding recover
  recover_from_record [] s rec e u w p c h = absurd (omega (arith, p))
  recover_from_record (a ∷ as_) s rec e u w p c h =
      let one =
        too_many_crashes-in_window a.crashed_at key s rec e (omega (arith, u, w.0))
          (omega (arith, c)) in
      let s' = (too_many_crashes a.crashed_at key s).1 in
      let threshold = ap (λ c. c.crash_threshold) one.2 in
      elim (Bool-cases (leb s.cfg.crash_threshold (rec.count + 1))) [
        | inl q ↦ ground (arith, one.0, q)
        | inr q ↦
            let rest =
              recover_from_record as_ s' (record rec { count = rec.count + 1 }) one.1
                (ap (λ c. rec.first_at + c.crash_window) one.2 ∙ u) w.1 in
            ground (arith, one.0, q, rest, threshold)
      ]

-- A plugin that cannot be restarted is not retried for ever: from a first crash that opens a window
-- on, the call of `recover` has returned, with a restart, a quarantine or one of the other ends, if
-- it made at least two passes and at least as many as the threshold, but fewer than 2^63 - 1, all of
-- them in the window.
pub recover_ends :
    (key : Bytes) (a : Attempt) (as_ : List Attempt) (s : Supervisor)
    → IsFresh a.crashed_at key s
    → All (λ b. b.crashed_at ≤ a.crashed_at + s.cfg.crash_window) as_
    → 0 < length as_
    → 1 + length as_ < 9223372036854775807
    → s.cfg.crash_threshold ≤ 1 + length as_
    → (recover key (a ∷ as_) s).0 ≢ retrying
unfolding recover
recover_ends key a as_ s f w p c h =
    let one = too_many_crashes-IsFresh a.crashed_at key s f in
    let s' = (too_many_crashes a.crashed_at key s).1 in
    let rest =
      recover_from_record key (a.crashed_at + s.cfg.crash_window) as_ s'
        (record { count = 1; first_at = a.crashed_at }) one.1
        (ap (λ c. a.crashed_at + c.crash_window) one.2) w p c in
    ground (arith, one.0, rest, ap (λ c. c.crash_threshold) one.2)
