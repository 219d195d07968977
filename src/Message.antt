-- ===== src/Message.antt =====
-- The texts that the program shows and logs. A text is kept as the template of its `QStringLiteral`
-- with the arguments that the `.arg` chain puts in: what the program decides by is only whether a
-- text is empty and whether two texts are equal.
use native.Mathlib.Decide.{ℕ_discrete}
use mathlib.Core.Bool.{false≢true}
use text.Mathlib.Text.{◌==◌}
use text.Mathlib.TextEquality.{eq_iff}
use luma_core.Prelude.{ℕ, ℤ, String, List, Bool, true, false, inl, inr, Bool-cases, ◌∙◌, sym}

mutual
  pub data Message : Type 0 where
    blank : Message
    format : String → Args → Message

  pub data Args : Type 0 where
    end : Args
    num : ℕ → Args → Args
    int : ℤ → Args → Args
    txt : List ℕ → Args → Args
    sub : Message → Args → Args

-- `QString::isEmpty`.
abbrev pub is_empty : Message → Bool
is_empty blank = true
is_empty (format _ _) = false

pub String-discrete : Discrete String
String-discrete s t = elim (Bool-cases (s == t)) [
  | inl same ↦ yes ((eq_iff s t).0 same)
  | inr other ↦ no (λ e. false≢true (sym other ∙ (eq_iff s t).1 e))
]

ℤ-discrete : Discrete ℤ
ℤ-discrete = hlevel ℕ_discrete

pub Message-discrete : Discrete Message
Message-discrete = hlevel (ℕ_discrete, ℤ-discrete, String-discrete)
