-- ===== src/Findings/Samples.antt =====
-- Regular expressions that find nothing, for concrete runs.
use apex_ray.Base.{false, []}
use apex_ray.Findings.{Scanner}

abbrev pub scan : Scanner
scan = record {
  lower = λ s. s;
  find_tokens = λ s. [];
  find_code_tokens = λ s. [];
  has_test_marker = λ s. false;
  has_test_suffix = λ s. false;
  cut_test_marker = λ s. s;
  cut_test_suffix = λ s. s;
}
