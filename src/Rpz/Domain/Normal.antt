-- ===== src/Rpz/Domain/Normal.antt =====
-- What a normal domain looks like.
use dnsdist_edge.Prelude.{◌≤◌, ◌≡◌, arith, length, ok}
use dnsdist_edge.Text.{Text, trim_space, trim_suffix, lower}
use dnsdist_edge.Text.Trim.{trim-fixed}
use dnsdist_edge.Rpz.Types.{Dns}
use dnsdist_edge.Rpz.Domain.{dot, normalize_policy_domain}

-- A normal domain has no space round it and no dot at its end, is in lower case, and has at most 253
-- bytes.
pub normal-fixed :
    (dns : Dns) (d : Text)
    → normalize_policy_domain dns d ≡ ok d
    → (trim_space d ≡ d) × (trim_suffix d dot ≡ d) × (length d ≤ 253)
unfolding normalize_policy_domain
normal-fixed dns d h =
    let e : lower (trim_suffix (trim_space d) dot) ≡ d = ground arith in
    let (space, suffix) = trim-fixed d dot e in (space, suffix, ground arith)
