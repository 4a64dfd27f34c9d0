-- ===== src/Core/Health.antt =====
-- packages/core/src/health.ts, health-monitor.ts and probes.ts: the health report, the cached
-- readiness checks, and what the probe server answers. A reason is known by a number.
use btravstack.Common.{
  ℕ, ◌+◌, ◌<◌, ◌≡◌, ◌↔◌, Result, ok, fail, String, Bool, true, false, not, ◌&&◌, Option, none, some,
  List, [], ◌∷◌, ◌++◌, map, all, ltb, if◌then◌else◌, ◌==◌, string_eq,
}

-- How a check answers within its time: well, with an error, with a throw, or not at all.
pub data Answer : Type 0 where
  answers : Answer
  answers_err answers_defect : (reason : ℕ) → Answer
  times_out : (ms : ℕ) → Answer

pub record HealthCheck : Type 0 where
  pub name : String
  pub timeout_ms : Option ℕ
  -- `none` is no contribution, `some none` one without an interval of its own.
  pub readiness : Option (Option ℕ)

pub data HealthReason : Type 0 where
  reported thrown did_not_answer : ℕ → HealthReason
  bad_interval : HealthReason

pub data Status : Type 0 where
  healthy : Status
  unhealthy : HealthReason → Status

pub record ComponentHealth : Type 0 where
  pub component : String
  pub status : Status

pub record HealthReport : Type 0 where
  pub overall : Bool
  pub components : List ComponentHealth

abbrev pub default_health_timeout_ms : ℕ
default_health_timeout_ms = 800

abbrev pub timeout_of : HealthCheck → ℕ
timeout_of check = elim check.timeout_ms [ none ↦ default_health_timeout_ms | some ms ↦ ms ]

-- The check's answer, if it comes within the time; `after` is when.
abbrev pub answering_within : Answer → (after ms : ℕ) → Answer
answering_within answer after ms = if ltb after ms then answer else times_out ms

-- How the chain of one check settles: with a component, with an error, or with a defect.
pub data Checked : Type 0 where
  answered : ComponentHealth → Checked
  erred broken : HealthReason → Checked

-- `answeringWithin(...).map(...)`.
abbrev pub checked_of : HealthCheck → Answer → Checked
checked_of check answers = answered (record { component = check.name; status = healthy })
checked_of check (answers_err reason) = erred (reported reason)
checked_of check (answers_defect reason) = broken (thrown reason)
checked_of check (times_out ms) = erred (did_not_answer ms)

-- `recoverErrCases`: an error becomes an unhealthy component.
abbrev pub recover_err : HealthCheck → Checked → Checked
recover_err check (answered component) = answered component
recover_err check (erred reason) =
    answered (record { component = check.name; status = unhealthy reason })
recover_err check (broken reason) = broken reason

-- `recoverDefect`: so does a defect.
abbrev pub recover_defect : HealthCheck → Checked → Checked
recover_defect check (answered component) = answered component
recover_defect check (erred reason) = erred reason
recover_defect check (broken reason) =
    answered (record { component = check.name; status = unhealthy reason })

abbrev pub is_healthy : Status → Bool
is_healthy healthy = true
is_healthy (unhealthy reason) = false

abbrev pub settle_check : HealthCheck × (Answer × ℕ) → Checked
settle_check (check, (answer, after)) =
    recover_defect check
      (recover_err check (checked_of check (answering_within answer after (timeout_of check))))

-- `allAsync` of the package unthrown: where all have a value, the values in their order.
pub record Gathering : Type 0 where
  pub all_async : List Checked → Result HealthReason (List ComponentHealth)
  pub all_answered : (cs : List ComponentHealth) → all_async (map answered cs) ≡ ok cs

abbrev pub report_of : Result HealthReason (List ComponentHealth) → Result HealthReason HealthReport
report_of (fail reason) = fail reason
report_of (ok components) =
    ok (record { overall = all (λ c. is_healthy c.status) components; components = components })

unfoldable pub run_health_checks :
    Gathering → List (HealthCheck × (Answer × ℕ)) → Result HealthReason HealthReport
run_health_checks gathering checks = report_of (gathering.all_async (map settle_check checks))

-- `cachedCheck`: the last report, and until when it holds.
pub record Cached : Type 0 where
  pub report : Option HealthReport
  pub expires_at : ℕ

abbrev pub interval_of : HealthCheck → ℕ
interval_of check = elim check.readiness [
  | none ↦ 1000
  | some own ↦ elim own [ none ↦ 1000 | some ms ↦ ms ]
]

-- What a fresh report leaves behind.
abbrev fresh_probe :
    HealthCheck
    → (settled : ℕ) → Cached
    → Result HealthReason HealthReport
    → Result HealthReason HealthReport × Cached
fresh_probe check settled c (fail reason) = (fail reason, c)
fresh_probe check settled c (ok report) =
    (ok report, record { report = some report; expires_at = settled + interval_of check })

-- One probe of a cached check at `now`, whose fresh answer is there at `settled`.
unfoldable pub probe_cached :
    Gathering
    → HealthCheck
    → (now settled : ℕ) → Answer × ℕ
    → Cached
    → Result HealthReason HealthReport × Cached
probe_cached gathering check now settled answer c =
    let fresh = fresh_probe check settled c (run_health_checks gathering ((check, answer) ∷ [])) in
    if not (ltb 0 (interval_of check))
    then (
      ok (record {
        overall = false;
        components = record { component = check.name; status = unhealthy bad_interval } ∷ [];
      }),
      c,
    )
    else elim c.report [
      | none ↦ fresh
      | some report ↦ if ltb now c.expires_at then (ok report, c) else fresh
    ]

-- `healthMonitor`, given what each entry's run answers.
monitor_health : List HealthReport → HealthReport
monitor_health [] = record { overall = true; components = [] }
monitor_health (r ∷ rs) =
    let rest = monitor_health rs in
    record { overall = r.overall && rest.overall; components = r.components ++ rest.components }

abbrev contributes : HealthCheck → Bool
contributes check = elim check.readiness [ none ↦ false | some own ↦ true ]

monitor_readiness : List (HealthCheck × HealthReport) → Bool
monitor_readiness [] = true
monitor_readiness ((check, report) ∷ rest) =
    let later = monitor_readiness rest in
    if contributes check then report.overall && later else later

pub data ProbeReply : Type 0 where
  plain : (code : ℕ) → (body : String) → ProbeReply
  json : (code : ℕ) → HealthReport → ProbeReply
  not_found : ProbeReply

abbrev pub respond : Bool → String → ProbeReply
respond true body = plain 200 body
respond false body = plain 503 "unavailable"

-- The probe server's routes; `readiness` is what the monitor answers, if there is one.
pub answer_probe :
    (url : String) → (live ready : Bool) → (readiness : Option Bool) → HealthReport → ProbeReply
answer_probe url live ready readiness report =
    if url == "/livez"
    then respond live "ok"
    else if url == "/readyz"
    then elim readiness [
      | none ↦ respond ready "ready"
      | some healthy_now ↦
          if ready then respond (ready && healthy_now) "ready" else respond ready "ready"
    ]
    else if url == "/healthz"
    then json (if report.overall then 200 else 503) report
    else not_found

-- What a report says of a check: its name, and healthy exactly if the check answered well before its
-- time was over, 800 milliseconds where it names none.
pub record IsChecked (x : HealthCheck × (Answer × ℕ)) (c : ComponentHealth) : Type 0 where
  pub named : c.component ≡ x.0.name
  pub healthy_iff :
      (c.status ≡ healthy)
      ↔ ((x.1.0 ≡ answers) × (x.1.1 < elim x.0.timeout_ms [ none ↦ 800 | some ms ↦ ms ]))

abbrev pub IsEach : List (HealthCheck × (Answer × ℕ)) → List ComponentHealth → Type 0
IsEach [] [] = Unit
IsEach (x ∷ xs) (c ∷ cs) = IsChecked x c × IsEach xs cs
IsEach [] (c ∷ cs) = ⊥
IsEach (x ∷ xs) [] = ⊥
