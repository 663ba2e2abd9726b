-- ===== src/Morpheus/Fetch.antt =====
-- `fetchPage` of packages/morpheus/src/morpheus.js, from the response on: which responses are pages to
-- morph to, which ask for a reload, and which make the navigation fall back to a full load. What
-- `new URL` and `DOMParser` answer are arguments.
use hacienda.Prelude.{
  Bool, true, false, not, ◌&&◌, Option, none, some, [], ◌∷◌, Text, codes, ◌===◌, contains,
  if◌then◌else◌,
}
use hacienda.Morpheus.State.{Page, reload, html}
use hacienda.Morpheus.Links.{Address, eligible_url, is_empty}
pub mod Pages

pub record HttpResponse : Type 0 where
  pub ok : Bool
  -- `response.url`, which may be empty.
  pub url : Text
  -- `response.headers.get`; the names are in lower case.
  pub header : Text → Option Text
  pub body : Text

-- The message of a `NavigationFallback`.
pub data Reason : Type 0 where
  http_error cross_origin not_navigable not_html target_missing : Reason
  reload_requested morph_cancelled current_target_missing : Reason

-- What a navigation catches: an abort, a fallback with its URL, or another error.
pub data Failure : Type 0 where
  aborted : Failure
  fallback : Text → Reason → Failure
  network : Failure

pub data Fetched {ℓ} (N : Type ℓ) : Type ℓ where
  page : Page N → Fetched N
  failed : Failure → Fetched N

-- The document that `DOMParser` makes of a body, and its `querySelector`.
pub record Document {ℓ} (N : Type ℓ) : Type ℓ where
  pub title : Text
  pub find : Text → Option N

-- `header || fallback`.
unfoldable pub text_or : Option Text → Text → Text
text_or none d = d
text_or (some []) d = d
text_or (some (c ∷ s)) d = c ∷ s

abbrev pub is_text : Option Text → Text → Bool
is_text none t = false
is_text (some s) t = s === t

unfoldable pub cacheable_response : HttpResponse → Bool
unfolding text_or
cacheable_response r =
    not (contains (codes "no-store") (text_or (r.header (codes "cache-control")) []))
    && not (is_text (r.header (codes "x-morpheus-prefetch-cache")) (codes "no-store"))

module _ {ℓ} {N : Type ℓ} (address_of : Text → Address) (location : Address)
    (parse_html : Text → Document N) where
  -- The checks behind the navigation header, in the order of the source.
  unfoldable pub read_page : Text → Text → HttpResponse → Fetched N
  unfolding text_or
  read_page selector final r =
      if contains (codes "text/html") (text_or (r.header (codes "content-type")) [])
      then elim ((parse_html r.body).find selector) [
        | none ↦ failed (fallback final target_missing)
        | some target ↦ page (
            html final target
              (text_or (r.header (codes "x-morpheus-title")) (parse_html r.body).title)
              (cacheable_response r))
      ]
      else failed (fallback final not_html)

  unfoldable pub fetch_page : Text → Text → HttpResponse → Fetched N
  unfolding text_or read_page
  fetch_page selector url r =
      let final = text_or (some r.url) url in
      let navigation = r.header (codes "x-morpheus-navigation") in
      if not r.ok
      then failed (fallback final http_error)
      else if not (eligible_url location (address_of final))
      then failed (fallback final cross_origin)
      else if is_text navigation (codes "reload")
      then page (reload final)
      else if not (is_text navigation (codes "morph"))
      then failed (fallback final not_navigable)
      else read_page selector final r
