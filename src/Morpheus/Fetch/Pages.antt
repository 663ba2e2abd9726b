-- ===== src/Morpheus/Fetch/Pages.antt =====
-- Which responses packages/morpheus/src/morpheus.js morphs to.
use hacienda.Prelude.{
  ◌≡◌, refl, Bool, true, false, Option, none, some, [], Text, codes, ◌===◌, ===_iff, contains,
  arith, ◌↔◌,
}
use hacienda.Morpheus.State.{html}
use hacienda.Morpheus.Links.{Address, eligible_url}
use hacienda.Morpheus.Fetch.{
  HttpResponse, Document, page, text_or, is_text, cacheable_response, fetch_page,
}

module _ {ℓ} {N : Type ℓ} (address_of : Text → Address) (location : Address)
    (parse_html : Text → Document N) where
  -- What the server and the document must show for a page to be morphed to.
  pub record IsPage (selector url : Text) (r : HttpResponse) (target : N) : Type ℓ where
    pub succeeded : r.ok ≡ true
    pub eligible : eligible_url location (address_of (text_or (some r.url) url)) ≡ true
    pub navigable : r.header (codes "x-morpheus-navigation") ≡ some (codes "morph")
    pub is_html : contains (codes "text/html") (text_or (r.header (codes "content-type")) []) ≡ true
    pub has_target : (parse_html r.body).find selector ≡ some target

  is_text_iff : (o : Option Text) (t : Text) → (is_text o t ≡ true) ↔ (o ≡ some t)
  is_text_iff none t = (λ h. cc, λ h. cc)
  is_text_iff (some s) t = (λ h. ground (arith, ===_iff s t), λ h. ground (arith, ===_iff s t))

  morph_not_reload : (codes "morph" === codes "reload") ≡ false
  unfolding ◌===◌
  morph_not_reload = refl

  -- `fetchPage` returns a page to morph to exactly if the response succeeded, its final URL is of
  -- the page's own origin over http or https, it says `morph`, it is HTML, and its document has the
  -- target; the URL, the title and the permission to store are those of the response.
  pub fetch_page_iff :
      (selector url : Text) (r : HttpResponse) (final : Text) (target : N) (title : Text)
      (cacheable : Bool)
      → (fetch_page address_of location parse_html selector url r
          ≡ page (html final target title cacheable))
        ↔ (IsPage selector url r target
            × (final ≡ text_or (some r.url) url)
            × (title ≡ text_or (r.header (codes "x-morpheus-title")) (parse_html r.body).title)
            × (cacheable ≡ cacheable_response r))
  unfolding fetch_page
  fetch_page_iff selector url r final target title cacheable = (
    λ h. (
      record {
        succeeded = ground arith;
        eligible = ground arith;
        navigable =
            ground (arith, is_text_iff (r.header (codes "x-morpheus-navigation")) (codes "morph"));
        is_html = ground arith;
        has_target = ground arith;
      },
      ground arith,
      ground arith,
      ground arith,
    ),
    λ h. ground (
      arith,
      morph_not_reload,
      h.0.succeeded,
      h.0.eligible,
      h.0.navigable,
      h.0.is_html,
      h.0.has_target,
      is_text_iff (r.header (codes "x-morpheus-navigation")) (codes "morph"),
    ),
  )
