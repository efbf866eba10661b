-- ===== src/DenyLog/Tests.antt =====
-- The log at concrete denials.
use zl_zpr_visaservice.Base.{
  ℕ, String, String-HasEq, ℕ-HasEq, ◌≡◌, refl, true, List, [], ◌∷◌, none, some, arith, head?,
}
use zl_zpr_visaservice.IpAddr.{IpAddr-HasEq, v6}
use zl_zpr_visaservice.DenyLog.{
  denied, VsapiFiveTuple, DenyEntry, deny_code_name, position, remove_at, is_same, trim,
  record_at_ms, rev, recent,
}
use zl_zpr_visaservice.DenyLog.Window.{IsValid}
use zl_zpr_visaservice.DenyLog.Refinement.{newest, noted, record_at_ms_lem, recent-record_at_ms}

abbrev ssh : VsapiFiveTuple
ssh = record {
  source_addr = v6 1;
  dest_addr = v6 2;
  l4_protocol = 6;
  source_port = 4444;
  dest_port = 22;
}

abbrev entry : ℕ → ℕ → String → DenyEntry
entry n at name = record {
  source_addr = v6 1;
  dest_addr = v6 2;
  protocol = 6;
  dest_port = 22;
  count = n;
  last_deny_ms = at;
  deny_code = name;
}

abbrev two : List DenyEntry
two = entry 3 10 "Denied" ∷ entry 1 20 "NoMatch" ∷ []

two-IsValid : IsValid two
two-IsValid = record { bounded = omega arith; distinct = (refl, (refl, tt)) }

code : Unit {0}
unfolding record_at_ms position remove_at trim deny_code_name recent
code = tt

-- A repeat is counted, and moves to the newest end.
repeat_counted :
    record_at_ms ssh denied 30 two ≡ some (entry 1 20 "NoMatch" ∷ entry 4 30 "Denied" ∷ [])
unfolding code
repeat_counted = refl

-- Only what is recent enough is answered, newest first.
recent_only :
    recent (some 15) none (entry 1 20 "NoMatch" ∷ entry 4 30 "Denied" ∷ entry 1 9 "NoRoute" ∷ [])
    ≡ entry 4 30 "Denied" ∷ entry 1 20 "NoMatch" ∷ []
unfolding code
recent_only = refl

record_at_ms_lem_example :
    (entries' : List DenyEntry) × (record_at_ms ssh denied 30 two ≡ some entries')
    × IsValid entries'
    × (rev entries' ≡ noted ssh denied (newest ssh denied 30 two) (rev two))
record_at_ms_lem_example = record_at_ms_lem ssh denied 30 two two-IsValid

recent-record_at_ms_example :
    (e : DenyEntry) × (head?
        (recent (some 25) (some 1) (entry 1 20 "NoMatch" ∷ entry 4 30 "Denied" ∷ []))
      ≡ some e)
    × (is_same ssh (deny_code_name denied) e ≡ true)
    × (e.last_deny_ms ≡ 30)
recent-record_at_ms_example =
    recent-record_at_ms ssh denied 30 25 0 two (entry 1 20 "NoMatch" ∷ entry 4 30 "Denied" ∷ [])
      two-IsValid (omega arith) repeat_counted
