-- ===== src/Lxc/Health/Verdict.antt =====
-- The verdict on one container, and its log.
use lxc2docker.Prelude.{
  ℕ, zero, suc, ◌-◌, ◌≤◌, ◌≡◌, ◌↔◌, refl, true, false, List, [], ◌∷◌, ◌++◌, arith, if◌then◌else◌,
  length, drop, take, ltb, In, In-append, inl, inr, Bool-cases,
}
use lxc2docker.Prelude.Int.{pos, ◌+ℤ◌, leb_ℤ}
use lxc2docker.Strings.{Str, codes}
use lxc2docker.Store.Records.{Time, HealthResult, ContainerRecord}
use lxc2docker.Lxc.Health.{
  truncate_output, positive_or, effective_retries, succeeded, in_start_period, keep_last_5,
  record_probe, reset_health, ProbeRun, result_of,
}

-- A container is unhealthy exactly from the streak of failures on that it is allowed, which is never
-- empty; at most five results are kept, with at most 4096 bytes of output each.
pub record HealthOk (rec : ContainerRecord) : Type 0 where
  pub streak : (n : ℕ) × (rec.health_failing_streak ≡ pos n)
  pub verdict :
      (rec.health_status ≡ codes "unhealthy")
      ↔ (leb_ℤ (effective_retries rec) rec.health_failing_streak ≡ true)
  pub few : length rec.health_log ≤ 5
  pub short : (r : HealthResult) → In r rec.health_log → length r.output ≤ 4096

length-drop : (n : ℕ) (xs : List HealthResult) → length (drop n xs) ≡ length xs - n
length-drop zero xs = omega arith
length-drop (suc n) [] = omega arith
length-drop (suc n) (x ∷ xs) = omega (arith, length-drop n xs)

In-drop : (r : HealthResult) (n : ℕ) (xs : List HealthResult) → In r (drop n xs) → In r xs
In-drop r zero xs i = i
In-drop r (suc n) [] i = absurd i
In-drop r (suc n) (x ∷ xs) i = inr (In-drop r n xs i)

length-keep_last_5 : (log : List HealthResult) → length (keep_last_5 log) ≤ 5
unfolding keep_last_5
length-keep_last_5 log = ground (arith, length-drop (length log - 5) log)

In-keep_last_5 : (r : HealthResult) (log : List HealthResult) → In r (keep_last_5 log) → In r log
unfolding keep_last_5
In-keep_last_5 r log = elim (Bool-cases (ltb 5 (length log))) [
  | inl e ↦ rw e (In-drop r (length log - 5) log)
  | inr e ↦ rw e (λ i. i)
]

length-clip : (n : ℕ) (s : Str) → length (if ltb n (length s) then take n s else s) ≤ n
length-clip n s = ground (arith, length-take n s)
  where
    length-take : (n : ℕ) (s : Str) → length (take n s) ≤ n
    length-take zero s = omega arith
    length-take (suc n) [] = omega arith
    length-take (suc n) (c ∷ s) = omega (arith, length-take n s)

length-truncate_output : (s : Str) → length (truncate_output s) ≤ 4096
unfolding truncate_output
length-truncate_output s = length-clip 4096 s

retries_positive : (rec : ContainerRecord) → leb_ℤ (effective_retries rec) (pos 0) ≡ false
unfolding effective_retries positive_or
retries_positive rec = ground arith

pub next_streak : (n : ℕ) → pos n +ℤ pos 1 ≡ pos (suc n)
unfolding ◌+ℤ◌
next_streak n = ground arith

pub reset-HealthOk : (rec : ContainerRecord) → HealthOk rec → HealthOk (reset_health rec)
unfolding reset_health effective_retries
reset-HealthOk rec ok = record {
  streak = (0, refl);
  verdict = ground (arith, retries_positive rec);
  few = ok.few;
  short = ok.short;
}

-- One more result in the log keeps it short.
log_few :
    (rec : ContainerRecord) (r : HealthResult) → length (keep_last_5 (rec.health_log ++ r ∷ [])) ≤ 5
log_few rec r = length-keep_last_5 (rec.health_log ++ r ∷ [])

log_short :
    (rec : ContainerRecord) (result r : HealthResult)
    → HealthOk rec
    → length result.output ≤ 4096
    → In r (keep_last_5 (rec.health_log ++ result ∷ []))
    → length r.output ≤ 4096
log_short rec result r ok new_short i =
    elim (In-append r rec.health_log (result ∷ []) (In-keep_last_5 r _ i)) [
      | inl old ↦ ok.short r old
      | inr (inl e) ↦ rw e new_short
      | inr (inr nothing) ↦ absurd nothing
    ]

result-HealthOk :
    (rec : ContainerRecord) (result : HealthResult)
    → length result.output ≤ 4096
    → HealthOk rec
    → HealthOk (record_probe result rec)
unfolding record_probe effective_retries
result-HealthOk rec result new_short ok =
    let (n, s) = ok.streak in
    let few = log_few rec result in
    let short = λ (r : HealthResult). log_short rec result r ok new_short in
    elim (Bool-cases (succeeded result.exit_code)) [
      | inl e ↦
          rw (record_probe, e)
            (record {
              streak = (0, refl);
              verdict = ground (arith, retries_positive rec);
              few = few;
              short = short;
            })
      | inr e ↦ elim (Bool-cases (in_start_period result.end rec)) [
        | inl p ↦
            rw (record_probe, e, p)
              (record { streak = ok.streak; verdict = ok.verdict; few = few; short = short })
        | inr p ↦
            elim (Bool-cases (leb_ℤ (effective_retries rec) (rec.health_failing_streak +ℤ pos 1))) [
              | inl q ↦
                  rw (record_probe, e, p, q)
                    (record {
                      streak = (suc n, rw s (next_streak n));
                      verdict = ((λ _. q), λ _. refl);
                      few = few;
                      short = short;
                    })
              | inr q ↦
                  rw (record_probe, e, p, q)
                    (record {
                      streak = (suc n, rw s (next_streak n));
                      verdict = ground (arith, ok.verdict, next_streak n);
                      few = few;
                      short = short;
                    })
            ]
      ]
    ]

pub probe-HealthOk :
    (rec : ContainerRecord) (start : Time) (run : ProbeRun)
    → HealthOk rec
    → HealthOk (record_probe (result_of start run) rec)
unfolding result_of
probe-HealthOk rec start run ok =
    result-HealthOk rec (result_of start run) (length-truncate_output run.output) ok
