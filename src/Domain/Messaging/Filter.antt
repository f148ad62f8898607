-- ===== src/Domain/Messaging/Filter.antt =====
-- internal/domain/messaging.go: `MessageFilter` and `balancedFilter`.
use envy.Common.{
  ℕ, ◌+◌, ◌-◌, String, Bool, true, false, ◌&&◌, not, List, [], ◌∷◌, ◌==◌, if◌then◌else◌, str_eq,
  ◌<>◌,
}

unfoldable pub message_filter : String → String → String
message_filter base business =
    if str_eq business "" then base else "(" <> (base <> (") AND (" <> (business <> ")")))

-- The loop of `balancedFilter` over the code points that are left. The depth never goes below
-- zero: the code returns there.
abbrev pub scan_filter : ℕ → Bool → Bool → List ℕ → Bool
scan_filter depth quoted escaped [] = depth == 0 && not quoted
scan_filter depth true true (r ∷ rs) = scan_filter depth true false rs
scan_filter depth true false (r ∷ rs) = scan_filter depth (not (r == b'"')) (r == b'\\') rs
scan_filter depth false escaped (r ∷ rs) =
    let opened = scan_filter depth true escaped rs in
    let deeper = scan_filter (depth + 1) false escaped rs in
    let shallower = scan_filter (depth - 1) false escaped rs in
    let same_level = scan_filter depth false escaped rs in
    if r == b'"'
    then opened
    else if r == b'('
    then deeper
    else if r == b')'
    then (if depth == 0 then false else shallower)
    else same_level

unfoldable pub balanced_filter : List ℕ → Bool
balanced_filter filter = scan_filter 0 false false filter
