-- ===== src/Upgrade/Formula/Accepted.antt =====
-- internal/upgrade/formula.go: what `FetchFormula` and `ValidateFormula` let through.
use tokenlive_standalone.Prelude.{
  ◌≤◌, Bool, true, false, not, ◌||◌, String, List, [], ◌∷◌, Option, none, some, ◌≡◌, refl, sym, ap,
  ◌∙◌, subst, if◌then◌else◌, inl, inr, arith, eq_iff, eqb, ltb, length, All, Option-cases, Bytes,
  begins_with, bytes,
}
use tokenlive_standalone.Upgrade.Formula.{
  FormulaError, Url, Reader, Result, done, failed, max_formula_bytes, Versions, is_release,
  all_release, stable_of, version_of, validate_formula, Contents, Response, Decoders, Formula,
  validated, decoded_body, content_of, contents_of, payload_of, fetch_formula,
}

-- The address is one of the releases of this repository.
pub record IsReleaseUrl (r : Reader) (text : Bytes) : Type 0 where
  pub url : Url
  pub parses : r.parse_url text ≡ some url
  pub secure : url.scheme ≡ "https"
  pub on_github : url.host ≡ "github.com"
  pub of_repository : begins_with (bytes "/tokenlive/tokenlive-standalone/") url.path ≡ true

pub record IsAccepted (r : Reader) (f : Formula) : Type 0 where
  pub bounded : length f.body ≤ max_formula_bytes
  pub is_text : r.utf8_valid f.body ≡ true
  pub one_class : r.classes f.body ≡ 1
  pub nothing_forbidden : r.forbidden f.body ≡ 0
  pub some_url : 1 ≤ length (r.urls f.body)
  pub two_urls : length (r.urls f.body) ≤ 2
  pub releases : All (IsReleaseUrl r) (r.urls f.body)
  pub one_sha_each : r.shas f.body ≡ length (r.urls f.body)
  pub one_version : r.versions f.body ≡ f.raw ∷ []
  pub is_stable : r.stable_version f.raw ≡ some f.stable

-- What was done, or the default.
or_default {ℓ} : {A : Type ℓ} → A → Result A → A
or_default d (done a) = a
or_default d (failed e) = d

done_same {ℓ} : {A : Type ℓ} {a b : A} → done a ≡ done b → a ≡ b
unfolding or_default
done_same {a = a} h = ap (or_default a) h

-- Past a refusal.
past {ℓ} :
    {A : Type ℓ} (b : Bool) (e : FormulaError) (rest : Result A) {a : A}
    → (if b then failed e else rest) ≡ done a
    → (b ≡ false) × (rest ≡ done a)
past true e rest h = absurd (cc h)
past false e rest h = (refl, h)

module _ (r : Reader) where
  release_found :
      (text : Bytes) (o : Option Url)
      → r.parse_url text ≡ o
      → is_release r o ≡ true
      → IsReleaseUrl r text
  release_found text none e h = absurd (cc h)
  release_found text (some u) e h = record {
    url = u;
    parses = e;
    secure = ground (arith, h, eq_iff u.scheme "https");
    on_github = ground (arith, h, eq_iff u.host "github.com");
    of_repository = ground (arith, h);
  }

  releases_found : (urls : List Bytes) → all_release r urls ≡ true → All (IsReleaseUrl r) urls
  unfolding all_release
  releases_found [] h = tt
  releases_found (u ∷ urls) h = (
    release_found u (r.parse_url u) refl (ground (arith, h)),
    releases_found urls (ground (arith, h)),
  )

  version_found :
      (vs : List String) (stable raw : String)
      → version_of r vs ≡ done (stable, raw)
      → (vs ≡ raw ∷ []) × (r.stable_version raw ≡ some stable)
  version_found [] stable raw h = absurd (cc h)
  version_found (v ∷ (w ∷ vs)) stable raw h = absurd (cc h)
  version_found (v ∷ []) stable raw h = elim (Option-cases (r.stable_version v)) [
    | inl e ↦ absurd (ground (arith, e, h))
    | inr (s, e) ↦
        let same : (s, v) ≡ (stable, raw) = done_same (ap (stable_of r v) (sym e) ∙ h) in
        (ap (λ q. q.1 ∷ []) same, subst (λ q. r.stable_version q.1 ≡ some q.0) same e)
  ]

  validate_formula-IsAccepted :
      (body : Bytes) (stable raw : String)
      → validate_formula r body ≡ done (stable, raw)
      → IsAccepted r (record { body = body; stable = stable; raw = raw })
  unfolding validate_formula
  validate_formula-IsAccepted body stable raw h =
      let (size, h1) = past (ltb max_formula_bytes (length body)) _ _ h in
      let (utf8, h2) = past (not (r.utf8_valid body)) _ _ h1 in
      let (classes, h3) = past (not (eqb (r.classes body) 1)) _ _ h2 in
      let (forbidden, h4) = past (not (eqb (r.forbidden body) 0)) _ _ h3 in
      let (count, h5) =
        past (ltb (length (r.urls body)) 1 || ltb 2 (length (r.urls body))) _ _ h4 in
      let (releases, h6) = past (not (all_release r (r.urls body))) _ _ h5 in
      let (shas, h7) = past (not (eqb (r.shas body) (length (r.urls body)))) _ _ h6 in
      let (version, stable_is) = version_found (r.versions body) stable raw h7 in
      record {
        bounded = ground (arith, size);
        is_text = ground (arith, utf8);
        one_class = ground (arith, classes);
        nothing_forbidden = ground (arith, forbidden);
        some_url = ground (arith, count);
        two_urls = ground (arith, count);
        releases = releases_found (r.urls body) (ground (arith, releases));
        one_sha_each = ground (arith, shas);
        one_version = version;
        is_stable = stable_is;
      }

  module _ (d : Decoders) where
    decoded-IsAccepted :
        (o : Option Bytes) (f : Formula) → decoded_body r d o ≡ done f → IsAccepted r f
    decoded-IsAccepted none f h = absurd (cc h)
    decoded-IsAccepted (some body) f h = valid (validate_formula r body) refl h
      where
        valid :
            (v : Result Versions)
            → validate_formula r body ≡ v
            → validated r d body v ≡ done f
            → IsAccepted r f
        valid (failed e) q g = absurd (cc g)
        valid (done (stable, raw)) q g =
            subst (IsAccepted r) (done_same g) (validate_formula-IsAccepted body stable raw q)

    contents-IsAccepted :
        (o : Option Contents) (f : Formula) → contents_of r d o ≡ done f → IsAccepted r f
    contents-IsAccepted none f h = absurd (cc h)
    contents-IsAccepted (some c) f h = let (file, h1) = past _ _ _ h in of_content c.content h1
      where
        of_content : (o : Option String) → content_of r d o ≡ done f → IsAccepted r f
        of_content none g = absurd (cc g)
        of_content (some text) g = decoded-IsAccepted (d.base64 text) f g

    -- If `FetchFormula` reports no error, the formula is a text of at most 64 KiB with one class
    -- and no rejected directive, has one or two addresses, all of them secure addresses of GitHub
    -- below the path of this repository, has as many digest lines as addresses, and declares one
    -- version, which is stable; both versions are the returned ones.
    pub fetch_formula-IsAccepted :
        (o : Option Response) (f : Formula) → fetch_formula r d o ≡ done f → IsAccepted r f
    unfolding fetch_formula
    fetch_formula-IsAccepted none f h = absurd (cc h)
    fetch_formula-IsAccepted (some resp) f h =
        let (status, h1) = past _ _ _ h in of_payload resp.payload h1
      where
        of_payload : (o : Option Bytes) → payload_of r d o ≡ done f → IsAccepted r f
        of_payload none g = absurd (cc g)
        of_payload (some p) g = contents-IsAccepted (d.json _) f g
