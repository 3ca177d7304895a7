-- ===== src/Jobs/BatchStatus/Tests.antt =====
-- A reply that is cached, at concrete tables.
use alya.Prelude.{Bool-cases, inl, inr, ap, [], ◌∷◌, some, String, true, ◌≡◌, str_eq_iff, arith}
use alya.Prelude.Int.{ℤ, pos, negsuc}
use alya.Jobs.Types.{BatchSummary, Files}
use alya.Jobs.Fixture.{an_env, is_plain, plain}
use alya.Jobs.BatchStatus.{StatusReply}

plain_only :
    (st : String) (fs : Files) (a b c : ℤ)
    → let s : BatchSummary = record {
      status = st;
      output_files = fs;
      nsuccess = a;
      nfailed = b;
      naborted = c;
    } in
      is_plain s ≡ true → s ≡ plain
plain_only st (x ∷ xs) a b c h = absurd (ground arith)
plain_only st [] (negsuc a) b c h = absurd (ground arith)
plain_only st [] (pos a) (negsuc b) c h = absurd (ground arith)
plain_only st [] (pos a) (pos b) (negsuc c) h = absurd (ground arith)
plain_only st [] (pos a) (pos b) (pos c) h =
    let e : st ≡ "queued" = (str_eq_iff st "queued").0 (ground arith) in
    let ea : a ≡ 0 = ground arith in
    let eb : b ≡ 0 = ground arith in let ec : c ≡ 0 = ground arith in cc

plain_round_trip :
    (s : BatchSummary) (t : String)
    → an_env.marshal_summary s ≡ some t
    → an_env.unmarshal_summary t ≡ some s
plain_round_trip s t h =
    let only = plain_only s.status s.output_files s.nsuccess s.nfailed s.naborted in
    elim (Bool-cases (is_plain s)) [
      | inl e ↦
          let te : t ≡ "plain" = ground arith in
          let back : an_env.unmarshal_summary t ≡ some plain = ap an_env.unmarshal_summary te in
          let whole : s ≡ plain = only e in cc
      | inr e ↦ absurd (ground arith)
    ]

abbrev a_status : StatusReply
a_status = ("queued", [], pos 0, pos 0, pos 0)
