-- ===== src/Witnesses/Formula.antt =====
-- A small formula, fetched; its expressions are stand-ins that find what it has.
use tokenlive_standalone.Prelude.{true, ◌∷◌, [], some, refl, bytes, begins_with}
use tokenlive_standalone.Upgrade.Formula.{
  Reader, Decoders, Formula, validate_formula, all_release, fetch_formula,
}
use tokenlive_standalone.Upgrade.Formula.Accepted.{IsAccepted, fetch_formula-IsAccepted}

abbrev a_reader : Reader
a_reader = record {
  utf8_valid = λ _. true;
  classes = λ _. 1;
  forbidden = λ _. 0;
  urls = λ _. bytes "https://github.com/tokenlive/tokenlive-standalone/releases/v1.1.0" ∷ [];
  shas = λ _. 1;
  versions = λ _. "1.1.0" ∷ [];
  parse_url = λ _. some (record {
    scheme = "https";
    host = "github.com";
    path = bytes "/tokenlive/tokenlive-standalone/releases/v1.1.0";
  });
  stable_version = λ s. some s;
}

abbrev decoders : Decoders
decoders = record {
  json = λ _. some (record { kind = "file"; encoding = "base64"; content = some "Y2xhc3M=" });
  base64 = λ _. some (bytes "class Tokenlive < Formula");
}

abbrev a_formula : Formula
a_formula = record { body = bytes "class Tokenlive < Formula"; stable = "1.1.0"; raw = "1.1.0" }

fetch_formula-IsAccepted_example : IsAccepted a_reader a_formula
unfolding fetch_formula validate_formula all_release begins_with
fetch_formula-IsAccepted_example =
    fetch_formula-IsAccepted a_reader decoders
      (some (record { status_code = 200; payload = some (bytes "{}") })) a_formula refl
