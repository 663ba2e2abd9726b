-- ===== src/Helium/Requests/Origins.antt =====
-- What a request of lib/lunula/assets/helium.js gives away, and to whom.
use hacienda.Prelude.{
  ◌≡◌, refl, Bool, true, false, ◌&&◌, not, Option, none, some, ◌++◌, Text, codes, ◌===◌,
  if◌then◌else◌, map_get,
}
use hacienda.Helium.Requests.{
  Method, is_get, Params, same_origin, omit, is_given, text_of, when, is_same_origin, request,
  is_form_data,
}

token_header :
    (a b c : Bool) (t l : Text)
    → map_get (codes "X-CSRF-Token") (
        when a (codes "Content-Type") (codes "application/json")
        ++ (when b (codes "X-CSRF-Token") t ++ when c (codes "Last-Event-ID") l))
      ≡ (if b then some t else none)
unfolding map_get ◌===◌
token_header true true c t l = refl
token_header true false true t l = refl
token_header true false false t l = refl
token_header false true c t l = refl
token_header false false true t l = refl
token_header false false false t l = refl

module _ {ℓ} {V : Type ℓ} (origin_of : Text → Text) (query : V → Text) (stringify : Params V → Text)
    (location : Text) where
  -- The token and the credentials go to the page's own origin alone: the header `X-CSRF-Token` is
  -- there, with the token, exactly if the URL is of that origin and there is a token that is not
  -- empty, and the request carries credentials exactly if the URL is of that origin.
  pub request_origin :
      (url : Text) (method : Method) (params : Params V) (token last_event_id : Option Text)
      → (map_get
            (codes "X-CSRF-Token")
            (request origin_of query stringify location url method params token
              last_event_id).headers
          ≡ (if is_same_origin origin_of location url && is_given token
              then some (text_of token)
              else none))
        × ((request origin_of query stringify location url method params token
              last_event_id).credentials
            ≡ (if is_same_origin origin_of location url then same_origin else omit))
  unfolding request map_get ◌===◌
  request_origin url method params token last_event_id = (
    token_header (not (is_form_data params) && not (is_get method))
        (is_same_origin origin_of location url && is_given token) (is_given last_event_id)
        (text_of token) (text_of last_event_id),
    refl,
  )
