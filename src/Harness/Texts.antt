-- ===== src/Harness/Texts.antt =====
-- internal/harness/runner.go: how texts are compared. `lower` stands for `strings.ToLower`.
use Prim.Native.String.{String, len, slice, ◌++◌}
use text.Mathlib.Text.{◌==◌ as str_eq, find?}
use loadgen.Base.{Bool, true, false, ◌||◌, if◌then◌else◌, ◌-◌, List, any, leb, some, none}

-- `strings.Contains` and `strings.HasSuffix`.
abbrev pub contains : String → String → Bool
contains s t = elim (find? s t) [ none ↦ false | some n ↦ true ]

abbrev pub has_suffix : String → String → Bool
has_suffix s t = if leb (len t) (len s) then str_eq (slice s (len s - len t) (len s)) t else false

unfoldable pub service_matches : (String → String) → String → String → Bool
service_matches lower got want =
    let g = lower got in
    let w = lower want in
    str_eq g w || (has_suffix g ("/" ++ w) || (has_suffix g (":" ++ w) || contains g w))

-- Whether a text has one of some keywords, in any case: the loops over keywords.
unfoldable pub mentions : (String → String) → String → List String → Bool
mentions lower text kws = any (λ kw. contains text (lower kw)) kws

-- `strings.EqualFold` is `fold_eq`.
unfoldable pub contains_fold : (String → String → Bool) → List String → String → Bool
contains_fold fold_eq list v = any (λ s. fold_eq s v) list

unfoldable pub or_deploy : String → String
or_deploy kind = if str_eq kind "" then "deploy" else kind
