-- ===== src/Upgrade/Formula.antt =====
-- internal/upgrade/formula.go: what a fetched formula must be. The matches of the regular
-- expressions, the parser of addresses, the decoders and the stable versions are parameters.
use tokenlive_standalone.Prelude.{
  ℕ, ◌*◌, Bool, true, false, not, ◌&&◌, ◌||◌, String, List, [], ◌∷◌, Option, none, some, ◌==◌, eqb,
  ltb, leb, length, take, if◌then◌else◌, Bytes, begins_with, bytes,
}
pub mod Accepted

pub record Url : Type 0 where
  pub scheme : String
  pub host : String
  pub path : Bytes

pub record Reader : Type 0 where
  pub utf8_valid : Bytes → Bool
  pub classes : Bytes → ℕ  -- the matches of `reClass`
  pub forbidden : Bytes → ℕ  -- of `reForbidden`
  pub urls : Bytes → List Bytes  -- the groups of `reURL`
  pub shas : Bytes → ℕ  -- the matches of `reSHA`
  pub versions : Bytes → List String  -- the groups of `reVersion`
  pub parse_url : Bytes → Option Url
  pub stable_version : String → Option String

pub data FormulaError : Type 0 where
  too_large not_utf8 not_one_class rejected_directives url_count not_release_host : FormulaError
  sha_count not_one_version not_stable : FormulaError
  no_response read_failed invalid_response not_base64 : FormulaError
  bad_status : ℕ → FormulaError

pub data Result {ℓ} (A : Type ℓ) : Type ℓ where
  done : A → Result A
  failed : FormulaError → Result A

abbrev pub max_formula_bytes : ℕ
max_formula_bytes = 65536

-- The stable version and the declared one.
abbrev pub Versions : Type 0
Versions = String × String

module _ (r : Reader) where
  abbrev pub is_release : Option Url → Bool
  is_release none = false
  is_release (some u) =
      u.scheme == "https"
      && (u.host == "github.com" && begins_with (bytes "/tokenlive/tokenlive-standalone/") u.path)

  unfoldable pub all_release : List Bytes → Bool
  unfolding begins_with
  all_release [] = true
  all_release (u ∷ urls) = is_release (r.parse_url u) && all_release urls

  abbrev pub stable_of : String → Option String → Result Versions
  stable_of raw none = failed not_stable
  stable_of raw (some stable) = done (stable, raw)

  abbrev pub version_of : List String → Result Versions
  version_of (raw ∷ []) = stable_of raw (r.stable_version raw)
  version_of _ = failed not_one_version

  -- `ValidateFormula`.
  unfoldable pub validate_formula : Bytes → Result Versions
  unfolding all_release
  validate_formula body =
      if ltb max_formula_bytes (length body)
      then failed too_large
      else if not (r.utf8_valid body)
      then failed not_utf8
      else if not (eqb (r.classes body) 1)
      then failed not_one_class
      else if not (eqb (r.forbidden body) 0)
      then failed rejected_directives
      else if ltb (length (r.urls body)) 1 || ltb 2 (length (r.urls body))
      then failed url_count
      else if not (all_release (r.urls body))
      then failed not_release_host
      else if not (eqb (r.shas body) (length (r.urls body)))
      then failed sha_count
      else version_of (r.versions body)

-- The JSON answer of the contents API.
pub record Contents : Type 0 where
  pub kind : String
  pub encoding : String
  pub content : Option String

-- The answer to the request: the status, and the body unless reading it fails.
pub record Response : Type 0 where
  pub status_code : ℕ
  pub payload : Option Bytes

pub record Decoders : Type 0 where
  pub json : Bytes → Option Contents
  pub base64 : String → Option Bytes

pub record Formula : Type 0 where
  pub body : Bytes
  pub stable : String
  pub raw : String

module _ (r : Reader) (d : Decoders) where
  abbrev pub validated : Bytes → Result Versions → Result Formula
  validated body (failed e) = failed e
  validated body (done (stable, raw)) = done (record { body = body; stable = stable; raw = raw })

  abbrev pub decoded_body : Option Bytes → Result Formula
  decoded_body none = failed not_base64
  decoded_body (some body) = validated body (validate_formula r body)

  abbrev pub content_of : Option String → Result Formula
  content_of none = failed invalid_response
  content_of (some text) = decoded_body (d.base64 text)

  abbrev pub contents_of : Option Contents → Result Formula
  contents_of none = failed invalid_response
  contents_of (some c) =
      if not (c.kind == "file") || not (c.encoding == "base64")
      then failed invalid_response
      else content_of c.content

  -- `io.LimitReader(resp.Body, maxFormulaBytes*2)`.
  abbrev pub payload_of : Option Bytes → Result Formula
  payload_of none = failed read_failed
  payload_of (some p) = contents_of (d.json (take (max_formula_bytes * 2) p))

  -- `FetchFormula`.
  unfoldable pub fetch_formula : Option Response → Result Formula
  unfolding validate_formula
  fetch_formula none = failed no_response
  fetch_formula (some resp) =
      if not (eqb resp.status_code 200)
      then failed (bad_status resp.status_code)
      else payload_of resp.payload
