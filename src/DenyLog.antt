-- ===== src/DenyLog.antt =====
-- vs/src/deny_log.rs: the window of recent denials, oldest first. `VsapiFiveTuple` and `DenyCode` are
-- the zpr crate's, with the fields and the variants that the code names. The lock around the entries
-- is not modelled: each operation holds it from its first line to its last.
pub mod Window
pub mod Refinement
mod Tests
use zl_zpr_visaservice.Base.{
  ℕ, zero, suc, ◌+◌, ◌%◌, ◌^◌, String, String-HasEq, ℕ-HasEq, ◌==◌, Bool, true, false, ◌&&◌, List,
  [], ◌∷◌, ◌++◌, Option, none, some, length, filter, take, if◌then◌else◌, ltb, leb,
}
use zl_zpr_visaservice.IpAddr.{IpAddr, IpAddr-HasEq}

pub data DenyCode : Type 0 where
  no_reason no_match denied source_not_found dest_not_found source_auth_error dest_auth_error :
      DenyCode
  quota_exceeded no_route : DenyCode

pub record VsapiFiveTuple : Type 0 where
  pub source_addr : IpAddr
  pub dest_addr : IpAddr
  pub l4_protocol : ℕ
  pub source_port : ℕ
  pub dest_port : ℕ

pub record DenyEntry : Type 0 where
  pub source_addr : IpAddr
  pub dest_addr : IpAddr
  pub protocol : ℕ
  pub dest_port : ℕ
  pub count : ℕ
  pub last_deny_ms : ℕ
  pub deny_code : String

-- config.rs
abbrev pub deny_log_size : ℕ
deny_log_size = 500

unfoldable pub deny_code_name : DenyCode → String
deny_code_name no_reason = "NoReason"
deny_code_name no_match = "NoMatch"
deny_code_name denied = "Denied"
deny_code_name source_not_found = "SourceNotFound"
deny_code_name dest_not_found = "DestNotFound"
deny_code_name source_auth_error = "SourceAuthError"
deny_code_name dest_auth_error = "DestAuthError"
deny_code_name quota_exceeded = "QuotaExceeded"
deny_code_name no_route = "NoRoute"

-- `Iterator::position`
unfoldable pub position : (DenyEntry → Bool) → List DenyEntry → Option ℕ
position p [] = none
position p (x ∷ xs) =
    if p x then some 0 else elim (position p xs) [ none ↦ none | some i ↦ some (suc i) ]

-- `VecDeque::remove`: the item taken out, and the others
unfoldable pub remove_at : ℕ → List DenyEntry → Option (DenyEntry × List DenyEntry)
remove_at i [] = none
remove_at zero (x ∷ xs) = some (x, xs)
remove_at (suc i) (x ∷ xs) = elim (remove_at i xs) [ none ↦ none | some r ↦ some (r.0, x ∷ r.1) ]

abbrev pub is_same : VsapiFiveTuple → String → DenyEntry → Bool
is_same ft name e =
    (e.source_addr == ft.source_addr)
    && (e.dest_addr == ft.dest_addr)
    && (e.protocol == ft.l4_protocol)
    && (e.dest_port == ft.dest_port)
    && (e.deny_code == name)

-- `while entries.len() > DENY_LOG_SIZE { entries.pop_front(); }`
unfoldable pub trim : ℕ → List DenyEntry → List DenyEntry
trim n [] = []
trim n (x ∷ xs) = let rest = trim n xs in if ltb n (length (x ∷ xs)) then rest else x ∷ xs

-- a `u64` count, one more
abbrev pub repeated : ℕ → DenyEntry → DenyEntry
repeated now_ms e = record e { count = (e.count + 1) % 2 ^ 64; last_deny_ms = now_ms }

abbrev pub first_deny : VsapiFiveTuple → String → ℕ → DenyEntry
first_deny ft name now_ms = record {
  source_addr = ft.source_addr;
  dest_addr = ft.dest_addr;
  protocol = ft.l4_protocol;
  dest_port = ft.dest_port;
  count = 1;
  last_deny_ms = now_ms;
  deny_code = name;
}

-- `none` is the panic of `expect`
unfoldable pub record_at_ms :
    VsapiFiveTuple → DenyCode → ℕ → List DenyEntry → Option (List DenyEntry)
record_at_ms ft code now_ms entries =
    let name = deny_code_name code in
    elim (position (is_same ft name) entries) [
      | some idx ↦ elim (remove_at idx entries) [
        | none ↦ none
        | some r ↦ some (r.1 ++ (repeated now_ms r.0 ∷ []))
      ]
      | none ↦ some (trim deny_log_size (entries ++ (first_deny ft name now_ms ∷ [])))
    ]

abbrev pub rev : List DenyEntry → List DenyEntry
rev [] = []
rev (x ∷ xs) = rev xs ++ (x ∷ [])

-- `is_none_or`
abbrev pub is_since : Option ℕ → DenyEntry → Bool
is_since none e = true
is_since (some s) e = leb s e.last_deny_ms

-- a limit of none is `usize::MAX`, above any length
abbrev pub take_at_most : Option ℕ → List DenyEntry → List DenyEntry
take_at_most none xs = xs
take_at_most (some n) xs = take n xs

unfoldable pub recent : Option ℕ → Option ℕ → List DenyEntry → List DenyEntry
recent since limit entries = take_at_most limit (filter (is_since since) (rev entries))
