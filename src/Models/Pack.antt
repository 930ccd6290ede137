-- ===== src/Models/Pack.antt =====
-- Context packs and what they hold, of src/apex_ray/models.py.
use apex_ray.Base.{ℕ, String, Bool, Option, List}
use apex_ray.Models.Enums.{FileKind, FindingSeverity, RuleMode, MemoryKind}
use apex_ray.Models.Diff.{RiskSignal}

pub record RuleMatch : Type 0 where
  pub id : String
  pub title : String
  pub severity : FindingSeverity
  pub mode : RuleMode
  pub resolution_surfaces : List String
  pub model : Option String
  pub verify : Option String
  pub source_path : Option String

pub data AppliesTo : Type 0 where
  review verify both : AppliesTo

pub record MemoryMatch : Type 0 where
  pub id : String
  pub title : String
  pub kind : MemoryKind
  pub severity : FindingSeverity
  pub applies_to : AppliesTo
  pub source_path : Option String
  pub score : ℕ
  pub reason : String
  pub rendered : String
  pub prompt_chars : ℕ

pub record MemoryOmission : Type 0 where
  pub id : String
  pub title : String
  pub kind : MemoryKind
  pub reason : String
  pub score : ℕ
  pub source_path : Option String

pub record AnalyzerReference : Type 0 where
  pub file : String
  pub line : ℕ
  pub end_line : Option ℕ
  pub text : String
  pub kind : String

pub record AnalyzerSymbol : Type 0 where
  pub name : String
  pub kind : String
  pub start_line : ℕ
  pub end_line : ℕ
  pub exported : Bool
  pub signature : String
  pub references : List AnalyzerReference
  pub callees : List AnalyzerReference
  pub contracts : List AnalyzerReference
  pub metadata : List AnalyzerReference

-- The code is a list of code points.
pub record CodeSnippet : Type 0 where
  pub file : String
  pub start_line : ℕ
  pub end_line : ℕ
  pub code : List ℕ

pub record ContextPackStats : Type 0 where
  pub diff_lines : ℕ
  pub changed_snippet_lines : ℕ
  pub reference_snippet_lines : ℕ
  pub callee_snippet_lines : ℕ
  pub contract_snippet_lines : ℕ
  pub metadata_snippet_lines : ℕ
  pub related_test_snippet_lines : ℕ
  pub memory_cards : ℕ
  pub memory_chars : ℕ
  pub estimated_chars : ℕ
  pub truncated : Bool
  pub truncation_notes : List String
  pub policy_key : String

pub record ReviewerPromptContext : Type 0 where
  pub id : String
  pub name : String
  pub focus : String
  pub instructions : List String

-- `analyzer_coverage`, which only the analyzers and the reports read, is left out.
pub record ContextPack : Type 0 where
  pub id : String
  pub file : String
  pub file_kind : FileKind
  pub changed_lines : List (ℕ × ℕ)
  pub impact_notes : List String
  pub diff_snippet : List String
  pub changed_snippets : List CodeSnippet
  pub symbol : Option AnalyzerSymbol
  pub symbols : List AnalyzerSymbol
  pub imports : List String
  pub exports : List String
  pub related_tests : List String
  pub references : List AnalyzerReference
  pub callees : List AnalyzerReference
  pub contracts : List AnalyzerReference
  pub metadata : List AnalyzerReference
  pub reference_snippets : List CodeSnippet
  pub callee_snippets : List CodeSnippet
  pub contract_snippets : List CodeSnippet
  pub metadata_snippets : List CodeSnippet
  pub related_test_snippets : List CodeSnippet
  pub risk_signals : List RiskSignal
  pub rules : List String
  pub rule_matches : List RuleMatch
  pub memory_matches : List MemoryMatch
  pub memory_omissions : List MemoryOmission
  pub reviewer : Option ReviewerPromptContext
  pub warnings : List String
  pub stats : ContextPackStats
