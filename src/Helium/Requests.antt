-- ===== src/Helium/Requests.antt =====
-- `ajax` of lib/lunula/assets/helium.js: the request that it makes, and what it takes the response for.
-- `URL`, `URLSearchParams`, `JSON` and the types of the parameters are arguments.
pub mod Origins
use hacienda.Prelude.{
  ℕ, Bool, true, false, ◌&&◌, ◌||◌, not, Option, none, some, List, [], ◌∷◌, ◌++◌, Text, codes,
  ◌===◌, contains, if◌then◌else◌,
}

pub data Method : Type 0 where
  get post put patch delete : Method

abbrev pub is_get : Method → Bool
is_get get = true
is_get post = false
is_get put = false
is_get patch = false
is_get delete = false

abbrev pub method_name : Method → Text
method_name get = codes "GET"
method_name post = codes "POST"
method_name put = codes "PUT"
method_name patch = codes "PATCH"
method_name delete = codes "DELETE"

-- The parameters: a FormData, another object, or a value that is no object.
pub data Params {ℓ} (V : Type ℓ) : Type ℓ where
  form_data object plain : V → Params V

abbrev pub is_form_data {ℓ} : {V : Type ℓ} → Params V → Bool
is_form_data (form_data v) = true
is_form_data (object v) = false
is_form_data (plain v) = false

pub data Body {ℓ} (V : Type ℓ) : Type ℓ where
  empty : Body V
  form : V → Body V
  json : Text → Body V

pub data Credentials : Type 0 where
  same_origin omit : Credentials

pub record Request {ℓ} (V : Type ℓ) : Type ℓ where
  pub url : Text
  pub method : Text
  pub headers : List (Text × Text)
  pub body : Body V
  pub credentials : Credentials

-- A text that is there and not empty.
abbrev pub is_given : Option Text → Bool
is_given none = false
is_given (some []) = false
is_given (some (c ∷ s)) = true

abbrev pub text_of : Option Text → Text
text_of none = []
text_of (some s) = s

abbrev pub when : Bool → Text → Text → List (Text × Text)
when b name value = if b then (name, value) ∷ [] else []

-- `sameOrigin`, for what `URL` takes for the origin and the page's location.
abbrev pub is_same_origin : (Text → Text) → Text → Text → Bool
is_same_origin origin_of location url = origin_of url === origin_of location

module _ {ℓ} {V : Type ℓ} (origin_of : Text → Text) (query : V → Text) (stringify : Params V → Text)
    (location : Text) where
  -- `requestUrl`.
  unfoldable pub request_url : Text → Method → Params V → Text
  request_url url method (form_data v) = url
  request_url url method (plain v) = url
  request_url url method (object v) =
      let separator = if contains (codes "?") url then codes "&" else codes "?" in
      if is_get method
      then (if is_given (some (query v)) then url ++ (separator ++ query v) else url)
      else url

  -- The spreads of the headers, in their order.
  unfoldable pub request_headers :
      Text → Method → Params V → Option Text → Option Text → List (Text × Text)
  request_headers url method params token last_event_id =
      (
        codes "Accept",
        codes "text/event-stream,text/vnd.turbo-stream.html,application/json,text/html",
      )
      ∷ (when (not (is_form_data params) && not (is_get method)) (codes "Content-Type")
            (codes "application/json")
          ++ (when (is_same_origin origin_of location url && is_given token) (codes "X-CSRF-Token")
                (text_of token)
              ++ when (is_given last_event_id) (codes "Last-Event-ID") (text_of last_event_id)))

  unfoldable pub request_body : Method → Params V → Body V
  request_body method (form_data v) = if is_get method then empty else form v
  request_body method (object v) = if is_get method then empty else json (stringify (object v))
  request_body method (plain v) = if is_get method then empty else json (stringify (plain v))

  -- `doFetch`.
  unfoldable pub request : Text → Method → Params V → Option Text → Option Text → Request V
  unfolding request_url request_headers request_body
  request url method params token last_event_id = record {
    url = request_url url method params;
    method = method_name method;
    headers = request_headers url method params token last_event_id;
    body = request_body method params;
    credentials = if is_same_origin origin_of location url then same_origin else omit;
  }

pub record HttpResponse : Type 0 where
  -- `undefined` is `none`.
  pub ok : Option Bool
  pub status : ℕ
  pub content_type : Option Text

-- What a response is taken for.
pub data Answer : Type 0 where
  http_error : ℕ → Answer
  event_stream no_stream_handler turbo_stream json_data text_data : Answer

unfoldable pub answer_to : Bool → HttpResponse → Answer
answer_to has_handler r =
    let type = text_of r.content_type in
    let typed =
      if contains (codes "event-stream") type
      then (if has_handler then event_stream else no_stream_handler)
      else if contains (codes "turbo-stream") type
      then turbo_stream
      else if contains (codes "json") type
      then json_data
      else text_data in
    elim r.ok [ none ↦ typed | some b ↦ if b then typed else http_error r.status ]
