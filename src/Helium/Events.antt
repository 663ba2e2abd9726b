-- ===== src/Helium/Events.antt =====
-- The listeners of event attributes in lib/lunula/assets/helium.js: their modifiers, the handler, and
-- what a request's attributes say.
pub mod Order
use hacienda.Prelude.{
  ℕ, zero, suc, Bool, true, false, not, ◌&&◌, ◌||◌, Option, none, some, List, [], ◌∷◌, ◌++◌, Text,
  map, codes, ◌==◌, ◌===◌, includes, starts_with, contains, if◌then◌else◌,
}
use hacienda.HeliumCsp.Strings.{trim, is_word}
use hacienda.HeliumCsp.Scope.{inherited}
use hacienda.Helium.Directives.{split_on, head_of, second_of}

abbrev pub flag_mods : List Text
flag_mods = codes "prevent" ∷ codes "once" ∷ codes "outside" ∷ codes "document" ∷ codes "stop" ∷ []

abbrev pub key_mods : List Text
key_mods = codes "shift" ∷ codes "ctrl" ∷ codes "alt" ∷ codes "meta" ∷ []

-- `KEY_MODS[m]` finds what every object inherits, too.
unfoldable pub is_key_mod : Text → Bool
is_key_mod m =
    not (includes flag_mods m)
    && (not (starts_with (codes "debounce") m) && not (includes key_mods m || includes inherited m))

unfoldable pub find : (Text → Bool) → List Text → Option Text
find p [] = none
find p (m ∷ mods) = if p m then some m else find p mods

-- `getEvent`, by the lower-case name of the tag.
unfoldable pub get_event : Text → Text
get_event tag =
    if tag === codes "form"
    then codes "submit"
    else if tag === codes "input"
    then codes "input"
    else if tag === codes "textarea"
    then codes "input"
    else if tag === codes "select"
    then codes "change"
    else codes "click"

abbrev pub http_methods : List Text
http_methods = codes "get" ∷ codes "post" ∷ codes "put" ∷ codes "patch" ∷ codes "delete" ∷ []

abbrev pub is_http_method : Text → Bool
is_http_method name = includes http_methods name

abbrev pub listened_event : Text → Text → Text
listened_event tag name = if is_http_method name then get_event tag else name

abbrev pub is_at_document : List Text → Bool
is_at_document mods = includes mods (codes "outside") || includes mods (codes "document")

-- The delay, where `number` is `Number` of a text, and `isNaN` is `none`.
abbrev pub delay_of : (Text → Option ℕ) → Option Text → ℕ
delay_of number none = 300
delay_of number (some []) = 300
delay_of number (some (c ∷ t)) = elim (number (c ∷ t)) [ none ↦ 300 | some d ↦ d ]

unfoldable pub debounce_delay : (Text → Option ℕ) → List Text → ℕ
debounce_delay number mods = elim (find (starts_with (codes "debounce")) mods) [
  | none ↦ 0
  | some m ↦ delay_of number (second_of (split_on 58 m))
]

pub record DomEvent : Type 0 where
  pub key : Text
  pub shift : Bool
  pub ctrl : Bool
  pub alt : Bool
  pub meta : Bool
  -- `el.contains(e.target)`.
  pub is_within : Bool

pub data HandlerCall : Type 0 where
  prevent_default stop_propagation act remove_listener : HandlerCall

abbrev pub call_if : Bool → HandlerCall → List HandlerCall
call_if b call = if b then call ∷ [] else []

-- The keys that the modifiers ask for are held.
abbrev pub holds : List Text → DomEvent → Bool
holds mods e =
    (not (includes mods (codes "shift")) || e.shift)
    && ((not (includes mods (codes "ctrl")) || e.ctrl)
        && ((not (includes mods (codes "alt")) || e.alt)
            && (not (includes mods (codes "meta")) || e.meta)))

abbrev pub key_name : Text → Text
key_name key =
    if key === codes " " then codes "Space" else if key === codes "Escape" then codes "Esc" else key

abbrev pub is_key_event : Text → Bool
is_key_event event =
    event === codes "keydown" || (event === codes "keyup" || event === codes "keypress")

abbrev pub is_key : (Text → Text) → Text → Option Text → Bool
is_key lower key none = true
is_key lower key (some m) = lower (key_name key) === lower m

-- `_handler`: the page's calls; `acts` is that the action ends without an exception.
unfoldable pub handle : (Text → Text) → Bool → Text → List Text → Bool → DomEvent → List HandlerCall
unfolding find
handle lower is_current event mods acts e =
    let fires =
      holds mods e
      && ((not (is_key_event event) || is_key lower e.key (find is_key_mod mods))
          && not (includes mods (codes "outside") && e.is_within)) in
    if is_current
    then call_if (includes mods (codes "prevent")) prevent_default
      ++ (call_if (includes mods (codes "stop")) stop_propagation
          ++ (if fires
              then act ∷ call_if (acts && includes mods (codes "once")) remove_listener
              else []))
    else []

-- The pairs of `@target`, each with its action if there is one.
abbrev pub trimmed : Option Text → Option Text
trimmed none = none
trimmed (some s) = some (trim s)

abbrev pub target_pair : Text → Text × Option Text
target_pair p = let parts = split_on 58 p in (trim (head_of parts), trimmed (second_of parts))

unfoldable pub target_pairs : Option Text → List (Text × Option Text)
unfolding split_on
target_pairs none = []
target_pairs (some []) = []
target_pairs (some (c ∷ s)) = map target_pair (split_on 44 (c ∷ s))

-- `match(/\w+/g)`, without the `null` for no word.
abbrev pub add_word : Text → List Text → List Text
add_word [] words = words
add_word (c ∷ w) words = (c ∷ w) ∷ words

unfoldable pub words_of : Text → Text → List Text
words_of w [] = add_word w []
words_of w (c ∷ s) = if is_word c then words_of (w ++ c ∷ []) s else add_word w (words_of [] s)

abbrev pub colons : List Text → Text
colons [] = []
colons (w ∷ ws) = w ++ (58 ∷ colons ws)

-- The text that the parameters are evaluated from, before it is nested. Nothing stands for a TypeError.
unfoldable pub params_attr : Option Text → Option Text → Bool → Option Text
unfolding words_of
params_attr (some (c ∷ s)) name is_checkbox = some (c ∷ s)
params_attr none none is_checkbox = some (codes "{}")
params_attr (some []) none is_checkbox = some (codes "{}")
params_attr none (some name) is_checkbox =
    let words = words_of [] name in
    elim words [
      | [] ↦ none
      | w ∷ ws ↦ some (colons (w ∷ ws) ++ (if is_checkbox then codes "checked" else codes "value"))
    ]
params_attr (some []) (some name) is_checkbox =
    let words = words_of [] name in
    elim words [
      | [] ↦ none
      | w ∷ ws ↦ some (colons (w ∷ ws) ++ (if is_checkbox then codes "checked" else codes "value"))
    ]

-- The callback of `reduceRight` for the key with an index; `property` is the text of `el[…]`.
abbrev pub nest : (Text → Text) → ℕ → Text → Text → Text
nest property i key acc =
    codes "{ "
    ++ (key
        ++ (codes ": " ++ ((if i == 1 then 39 ∷ (property acc ++ 39 ∷ []) else acc) ++ codes " }")))

unfoldable pub nest_from : (Text → Text) → ℕ → Text → List Text → Text
nest_from property i p [] = p
nest_from property i p (q ∷ ps) = nest property i p (nest_from property (suc i) q ps)

abbrev pub nest_all : (Text → Text) → List Text → Text
nest_all property [] = []
nest_all property (p ∷ ps) = nest_from property 0 p ps

unfoldable pub nested_params : (Text → Text) → Text → Text
unfolding split_on nest_from
nested_params property s =
    if not (starts_with (codes "{") (trim s)) && contains (codes ":") s
    then nest_all property (map trim (split_on 58 s))
    else s
