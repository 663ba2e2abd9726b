-- ===== src/Morpheus/Listening.antt =====
-- `start` and `stop` of packages/morpheus/src/morpheus.js: the listeners that the object has on the page,
-- and what else the two methods do.
pub mod Stopped
mod Tests
use hacienda.Prelude.{
  ℕ, zero, suc, ◌+◌, Bool, true, false, not, ◌&&◌, ◌||◌, List, [], ◌∷◌, ◌++◌, Text, codes, ◌==◌,
  ◌===◌, keep_if, if◌then◌else◌,
}

-- The bound methods, and the functions of others.
pub data Handler : Type 0 where
  bound_click bound_pop_state bound_prefetch_intent bound_invalidate : Handler
  other : ℕ → Handler

pub record Listener : Type 0 where
  pub on_window : Bool
  pub type : Text
  pub handler : Handler

abbrev pub handler_code : Handler → ℕ
handler_code bound_click = 0
handler_code bound_pop_state = 1
handler_code bound_prefetch_intent = 2
handler_code bound_invalidate = 3
handler_code (other n) = n + 4

abbrev pub same_bool : Bool → Bool → Bool
same_bool true b = b
same_bool false b = not b

abbrev pub same_listener : Listener → Listener → Bool
same_listener l m =
    same_bool l.on_window m.on_window
    && (l.type === m.type && handler_code l.handler == handler_code m.handler)

unfoldable pub is_listening : Listener → List Listener → Bool
is_listening l [] = false
is_listening l (m ∷ ms) = same_listener l m || is_listening l ms

-- `addEventListener` adds no listener twice.
unfoldable pub add_listener : Listener → List Listener → List Listener
unfolding is_listening
add_listener l ls = if is_listening l ls then ls else ls ++ l ∷ []

abbrev pub remove_listener : Listener → List Listener → List Listener
remove_listener l ls = keep_if (λ m. not (same_listener l m)) ls

unfoldable pub add_listeners : List Listener → List Listener → List Listener
unfolding add_listener
add_listeners [] ls = ls
add_listeners (m ∷ ms) ls = add_listeners ms (add_listener m ls)

unfoldable pub remove_listeners : List Listener → List Listener → List Listener
remove_listeners [] ls = ls
remove_listeners (m ∷ ms) ls = remove_listeners ms (remove_listener m ls)

abbrev pub on_document : Text → Handler → Listener
on_document type handler = record { on_window = false; type = type; handler = handler }

abbrev pub own_listeners : List Listener
own_listeners =
    on_document (codes "click") bound_click
    ∷ (record { on_window = true; type = codes "popstate"; handler = bound_pop_state })
    ∷ on_document (codes "mouseover") bound_prefetch_intent
    ∷ on_document (codes "focusin") bound_prefetch_intent
    ∷ on_document (codes "touchstart") bound_prefetch_intent
    ∷ on_document (codes "morpheus:invalidate") bound_invalidate
    ∷ []

-- What else is done; the event `morpheus:load` is dispatched in the next frame.
pub data Doing : Type 0 where
  restore_by_hand remember_scroll update_active_links request_load_event : Doing
  clear_prefetch_timer abort_controller : Doing

pub record Listening : Type 0 where
  pub started : Bool
  pub listeners : List Listener
  pub done : List Doing

unfoldable pub start_listening : Listening → Listening
unfolding add_listeners
start_listening s = if s.started then s else record {
  started = true;
  listeners = add_listeners own_listeners s.listeners;
  done =
      s.done ++ restore_by_hand ∷ remember_scroll ∷ update_active_links ∷ request_load_event ∷ [];
}

unfoldable pub stop_listening : Listening → Listening
unfolding remove_listeners
stop_listening s = if not s.started then s else record {
  started = false;
  listeners = remove_listeners own_listeners s.listeners;
  done = s.done ++ clear_prefetch_timer ∷ abort_controller ∷ [];
}
