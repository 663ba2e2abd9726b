-- ===== src/Morpheus/Tests.antt =====
-- Runs of the model of packages/morpheus/src/morpheus.js, and its theorems at concrete inputs.
use hacienda.Prelude.{
  ℕ, ◌≡◌, refl, ◌↔◌, Bool, true, false, none, some, List, [], ◌∷◌, Text, codes, length, drop,
  Distinct, map_get, map_set, map_delete, ◌===◌, includes, contains, starts_with, arith, ◌-◌,
}
use hacienda.Morpheus.State.{
  nat, Options, undefined, unset, Entry, Morpheus, constructor_of, html, enabled, number_or,
  prefetch_mode_of,
}
use hacienda.Morpheus.Cache.{prune_cache, prefetch, settle_prefetch, take_prefetch}
use hacienda.Morpheus.Cache.Prune
use hacienda.Morpheus.Cache.Prune.{live}
use hacienda.Morpheus.Cache.Bounds.{IsValid, constructor_of-IsValid}
use hacienda.Morpheus.Cache.Reuse
use hacienda.Morpheus.Links.{
  Address, Click, Link, take_over, handle_click, handle_prefetch_intent, eligible_url,
  only_changes_hash, prefetch_enabled,
}
use hacienda.Morpheus.Links.Takeover
use hacienda.Morpheus.Links.Takeover.{IsPlain, IsHashChange, IsPrefetchable, IsFast}
use hacienda.Morpheus.Fetch.{HttpResponse, Document, fetch_page, page, text_or, cacheable_response}
use hacienda.Morpheus.Fetch.Pages
use hacienda.Morpheus.View.{Dom, push, NavigateOptions, is_active}
use hacienda.Morpheus.View.ActiveLinks
use hacienda.Morpheus.Navigation.{Browser, World, navigate, use_prefetched, complete}
use hacienda.Morpheus.Schedule.{
  responds, Event, navigated, intended, prefetch_settled, prefetch_taken, page_settled, frame_drawn,
  run, start_world,
}
use hacienda.Morpheus.Schedule.Invariant.{IsConsistent}
use hacienda.Morpheus.Schedule.Runs
use hacienda.Morpheus.Schedule.Cached

program : Unit {0}
unfolding constructor_of number_or prefetch_mode_of prefetch take_prefetch settle_prefetch map_get
    map_set map_delete ◌===◌ includes contains starts_with handle_click handle_prefetch_intent
    eligible_url only_changes_hash prefetch_enabled fetch_page cacheable_response is_active run
    navigate use_prefetched complete
program = tt

abbrev options : Options
options = record { target = []; prefetch = unset; cache_size = undefined; cache_ttl = undefined }

abbrev fresh : Morpheus
fresh = constructor_of (λ s. nat 0) options

fresh_defaults :
    (fresh.cache_size ≡ nat 20)
    × (fresh.cache_ttl ≡ nat 15000)
    × (fresh.prefetch_mode ≡ enabled (codes "intent"))
unfolding program
fresh_defaults = (refl, refl, refl)

fresh-IsValid : IsValid fresh
fresh-IsValid = constructor_of-IsValid (λ s. nat 0) options

-- A site whose URLs are paths, or a path and a hash.
abbrev address : Text → Address
address path = record {
  href = path;
  origin = codes "https://a.example";
  protocol = codes "https:";
  pathname = path;
  search = [];
  hash = [];
}

abbrev home : Address
home = address (codes "/")

abbrev plain_click : Click
plain_click = record {
  button = 0;
  meta_key = false;
  ctrl_key = false;
  shift_key = false;
  alt_key = false;
  default_prevented = false;
}

abbrev link : Link
link = record {
  address = address (codes "/posts");
  target = [];
  has_download = false;
  switched_off = false;
  external = false;
  prefetch_off = false;
}

handle_click_iff_example :
    (handle_click home true plain_click (some link) ≡ take_over (codes "/posts")) ↔ (
      IsPlain home plain_click link
      × (¬ IsHashChange home link.address)
      × (◌≡◌ {A = Bool} true true)
      × (codes "/posts" ≡ link.address.href))
handle_click_iff_example = Takeover.handle_click_iff home true plain_click link (codes "/posts")

handle_click_runs : handle_click home true plain_click (some link) ≡ take_over (codes "/posts")
unfolding program
handle_click_runs = refl

-- A server that answers each request with its page, and a document whose nodes are texts.
abbrev response : Text → HttpResponse
response url = record {
  ok = true;
  url = url;
  header = λ name. elim (name === codes "x-morpheus-navigation") [
    | true ↦ some (codes "morph")
    | false ↦ elim (name === codes "content-type") [
      | true ↦ some (codes "text/html; charset=utf-8")
      | false ↦ none
    ]
  ];
  body = url;
}

abbrev document : Text → Document Text
document body = record { title = body; find = λ selector. some body }

fetch_page_iff_example :
    (fetch_page address home document (codes "#p") (codes "/b") (response (codes "/b"))
      ≡ page (html (codes "/b") (codes "/b") (codes "/b") true))
    ↔ (Pages.IsPage address home document
          (codes "#p")
          (codes "/b")
          (response (codes "/b"))
          (codes "/b")
        × (codes "/b" ≡ text_or (some (codes "/b")) (codes "/b"))
        × (codes "/b"
            ≡ text_or ((response (codes "/b")).header (codes "x-morpheus-title")) (codes "/b"))
        × (true ≡ cacheable_response (response (codes "/b"))))
fetch_page_iff_example =
    Pages.fetch_page_iff address home document (codes "#p") (codes "/b") (response (codes "/b"))
      (codes "/b") (codes "/b") (codes "/b") true

fetch_page_runs :
    fetch_page address home document (codes "#p") (codes "/b") (response (codes "/b"))
    ≡ page (html (codes "/b") (codes "/b") (codes "/b") true)
unfolding program
fetch_page_runs = refl

is_active_iff_example :
    (is_active (codes "/posts/7") (some (codes "/posts")) ≡ true)
    ↔ ActiveLinks.IsCurrent (codes "/posts/7") (some (codes "/posts"))
is_active_iff_example = ActiveLinks.is_active_iff (codes "/posts/7") (some (codes "/posts"))

is_active_runs :
    (is_active (codes "/posts/7") (some (codes "/posts/")) ≡ true)
    × (is_active (codes "/postscript") (some (codes "/posts")) ≡ false)
unfolding program
is_active_runs = (refl, refl)

abbrev entry : ℕ → ℕ → Entry
entry promise time = record { promise = promise; expires_at = nat time }

abbrev three : List (Text × Entry)
three = (codes "/a", entry 0 5) ∷ (codes "/b", entry 1 90) ∷ (codes "/c", entry 2 95) ∷ []

three-Distinct : Distinct three
unfolding program
three-Distinct = (refl, (refl, (refl, tt)))

prune_cache-drop_example :
    prune_cache 10 (nat 1) three ≡ drop (length (live 10 three) - 1) (live 10 three)
prune_cache-drop_example = Prune.prune_cache-drop 10 1 three three-Distinct

prefetch-prefetch_example :
    prefetch (codes "/b") 900 (prefetch (codes "/b") 100 fresh).0 ≡ prefetch (codes "/b") 100 fresh
unfolding program
prefetch-prefetch_example =
    Reuse.prefetch-prefetch (codes "/b") 100 900 19 14999 fresh fresh-IsValid refl refl refl
      (omega arith)

take_prefetch-prefetch_example :
    ((take_prefetch (codes "/b") 900 (prefetch (codes "/b") 100 fresh).0).1
      ≡ some fresh.next_request)
    × ((take_prefetch
          (codes "/b")
          900
          (take_prefetch (codes "/b") 900 (prefetch (codes "/b") 100 fresh).0).0).1
        ≡ none)
unfolding program
take_prefetch-prefetch_example =
    Reuse.take_prefetch-prefetch (codes "/b") 100 900 19 14999 fresh fresh-IsValid refl refl refl
      (omega arith)

abbrev browser : Browser Text
browser = record {
  address_of = λ base url. address url;
  cache_key = λ base url. url;
  parse_html = document;
}

abbrev dom : Dom Text
dom = record {
  find = λ selector. some selector;
  by_id = λ id. none;
  decode = λ s. some s;
  hash_of = λ url. [];
  has_tab_index = λ node. false;
  is_control = λ node. false;
}

abbrev by_link : NavigateOptions
by_link = record { history_mode = push; navigation_type = codes "link"; scroll = none }

-- A prefetch, and two navigations of which the second supersedes the first before its page arrives.
abbrev events : List (Event Text)
events =
    intended (codes "/b") 100
    ∷ navigated (codes "/a") by_link 150
    ∷ prefetch_taken 1 true dom
    ∷ navigated (codes "/b") by_link 200
    ∷ page_settled 1 (responds (response (codes "/a"))) true dom
    ∷ prefetch_settled 0 (responds (response (codes "/b")))
    ∷ prefetch_taken 2 true dom
    ∷ frame_drawn 2 dom
    ∷ []

abbrev start : World Text
start = start_world fresh (codes "/")

run_shows_newest :
    ((run browser events start).location ≡ codes "/b")
    × ((run browser events start).navigating ≡ false)
    × ((run browser events start).tasks ≡ [])
unfolding program
run_shows_newest = (refl, refl, refl)

start-IsConsistent : IsConsistent start
unfolding program
start-IsConsistent = record { shown = refl; bounded = tt; past = tt; ordered = tt }

run-IsConsistent_example : IsConsistent (run browser events start)
run-IsConsistent_example = Runs.run-IsConsistent browser events start start-IsConsistent

run-IsValid_example : IsValid (run browser events start).morpheus
run-IsValid_example = Cached.run-IsValid browser events start fresh-IsValid
