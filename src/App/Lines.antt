-- ===== src/App/Lines.antt =====
-- The rules that the program builds from a configuration with good and bad lines.
use mathlib.Core.List.{append-nil}
use redog.Common.{◌++◌, sym, ◌∙◌, Text, List, [], ◌∷◌, map, All, failed, ◌≡◌, refl, ap}
use redog.App.Setup.{build_rules}
use redog.Core.Rule.{Rule}
use redog.Rules.Libs.{Libs}
use redog.Rules.Parser.{BoxedRule, as_rule, parse_rule}
use redog.Rules.RoundTrip.{written, WellFormed, parse_rule-written}

-- A line of the configuration: the line of a rule, or one that the parser refuses.
pub data Line (Regex IpNet : Type 0) : Type 0 where
  good : BoxedRule Regex IpNet → Line Regex IpNet
  bad : Text → Line Regex IpNet

module _ {Regex IpNet : Type 0} (libs : Libs Regex IpNet) where
  abbrev pub line_text : Line Regex IpNet → Text
  line_text (good b) = written libs b
  line_text (bad s) = s

  abbrev pub IsLine : Line Regex IpNet → Type 0
  IsLine (good b) = WellFormed libs b
  IsLine (bad s) = (e : Text) × (parse_rule libs s ≡ failed e)

  abbrev pub rules_of : List (Line Regex IpNet) → List Rule
  rules_of [] = []
  rules_of (good b ∷ ls) = as_rule libs b ∷ rules_of ls
  rules_of (bad s ∷ ls) = rules_of ls

  -- The lines in front of others give their rules, in their order; a line that does not parse is skipped.
  pub build_rules-front :
      (front : List (Line Regex IpNet)) (more : List Text)
      → All IsLine front
      → build_rules libs (map line_text front ++ more) ≡ rules_of front ++ build_rules libs more
  unfolding build_rules
  build_rules-front [] more h = refl
  build_rules-front (good b ∷ ls) more (h, hs) =
      rw (parse_rule-written libs b h, build_rules)
        (ap (◌∷◌ (as_rule libs b)) (build_rules-front ls more hs))
  build_rules-front (bad s ∷ ls) more ((e, h), hs) =
      rw (h, build_rules) (build_rules-front ls more hs)

  -- From the lines of well-formed rules, mixed with lines that the parser refuses, the program
  -- builds exactly those rules, in their order.
  pub build_rules-line_text :
      (ls : List (Line Regex IpNet))
      → All IsLine ls
      → build_rules libs (map line_text ls) ≡ rules_of ls
  build_rules-line_text ls h =
      ap (build_rules libs) (sym (append-nil (map line_text ls)))
      ∙ build_rules-front ls [] h
      ∙ unfold build_rules in append-nil (rules_of ls)
