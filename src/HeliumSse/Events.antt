-- ===== src/HeliumSse/Events.antt =====
-- `handleSSE` of lib/lunula/assets/helium-sse.js: what it does with the text of the stream. Whether the
-- request is still current does not change while a piece of the text is processed.
use hacienda.Prelude.{
  ℕ, zero, suc, Bool, true, false, ◌&&◌, ◌||◌, not, Option, none, some, List, [], ◌∷◌, ◌++◌, Text,
  codes, length, drop, ◌==◌, if◌then◌else◌, starts_with,
}
use hacienda.HeliumCsp.Strings.{trim, trim_start}

abbrev pub is_empty {ℓ} : {A : Type ℓ} → List A → Bool
is_empty [] = true
is_empty (a ∷ rest) = false

-- The length of `\r\n\r\n`, `\r\r` or `\n\n` at the head of the text, the first that is there.
unfoldable pub separator : Text → ℕ
unfolding starts_with
separator s =
    if starts_with (13 ∷ 10 ∷ 13 ∷ 10 ∷ []) s
    then 4
    else if starts_with (13 ∷ 13 ∷ []) s || starts_with (10 ∷ 10 ∷ []) s
    then 2
    else 0

-- `buffer.split(…)`, behind a part of an event: the events, and what is popped off. Each round takes
-- a character or more, so the length of the text is fuel enough.
unfoldable pub split_events : ℕ → Text → Text → List Text × Text
unfolding separator
split_events fuel event [] = ([], event)
split_events zero event (c ∷ s) = ([], event ++ c ∷ s)
split_events (suc fuel) event (c ∷ s) =
    let n = separator (c ∷ s) in
    let (events, rest) = split_events fuel [] (drop n (c ∷ s)) in
    let more = split_events fuel (event ++ c ∷ []) s in
    if n == 0 then more else (event ∷ events, rest)

-- `block.split(/\r\n|\r|\n/)`, behind a part of a line; the test says whether the last character was
-- the `\r` of a break.
unfoldable pub split_lines : Bool → Text → Text → List Text
split_lines after line [] = line ∷ []
split_lines after line (c ∷ s) =
    let ended = split_lines false [] s in
    let ended_by_return = split_lines true [] s in
    let skipped = split_lines false line s in
    let more = split_lines false (line ++ c ∷ []) s in
    if c == 10
    then (if after then skipped else line ∷ ended)
    else if c == 13
    then line ∷ ended_by_return
    else more

pub record Fields : Type 0 where
  pub data_text : Text
  pub event : Text
  pub id : Text
  pub retry_delay : ℕ

-- `(data ? "\n" : "")` between what is there and a line.
abbrev pub add_line : Text → Text → Text
add_line [] line = line
add_line (c ∷ s) line = (c ∷ s) ++ 10 ∷ line

-- `parseInt(…) || retryDelay`, where no number and 0 give nothing.
abbrev pub delay_or : Option ℕ → ℕ → ℕ
delay_or none old = old
delay_or (some n) old = if n == 0 then old else n

-- A call of `update`: the data and the targets.
pub record Update : Type 0 where
  pub text : Text
  pub targets : Option (List Text)

pub record Stream : Type 0 where
  pub buffer : Text
  pub last_id : Option Text
  pub retry_delay : ℕ
  -- The calls so far, in their order.
  pub updates : List Update

abbrev pub targets_of : List Text → Text → Option (List Text)
targets_of (t ∷ ts) event = some (t ∷ ts)
targets_of [] (c ∷ event) = some ((c ∷ event) ∷ [])
targets_of [] [] = none

module _ (parse_int : Text → Option ℕ) where
  unfoldable pub read_line : Text → Fields → Fields
  unfolding starts_with trim
  read_line line f =
      if starts_with (codes "data:") line
      then record f { data_text = add_line f.data_text (trim_start (drop 5 line)) }
      else if starts_with (codes "event:") line
      then record f { event = trim (drop 6 line) }
      else if starts_with (codes "id:") line
      then record f { id = trim (drop 3 line) }
      else if starts_with (codes "retry:") line
      then record f { retry_delay = delay_or (parse_int (trim (drop 6 line))) f.retry_delay }
      else f

  unfoldable pub read_lines : List Text → Fields → Fields
  unfolding read_line
  read_lines [] f = f
  read_lines (line ∷ lines) f = read_lines lines (read_line line f)

  -- A round of the loop over the events: the test is `isCurrent`, the list `options.target`.
  unfoldable pub process_block : Bool → List Text → Text → Stream → Stream
  unfolding split_lines read_lines
  process_block is_current target block st =
      let f =
        read_lines (split_lines false [] block)
          (record { data_text = []; event = []; id = []; retry_delay = st.retry_delay }) in
      let last = if is_empty f.id then st.last_id else some f.id in
      let update : Update = record { text = f.data_text; targets = targets_of target f.event } in
      if is_empty (trim block) then st else record st {
        last_id = last;
        retry_delay = f.retry_delay;
        updates =
            if not (is_empty f.data_text) && is_current
            then st.updates ++ update ∷ []
            else st.updates;
      }

  unfoldable pub process_blocks : Bool → List Text → List Text → Stream → Stream
  unfolding process_block
  process_blocks is_current target [] st = st
  process_blocks is_current target (block ∷ blocks) st =
      process_blocks is_current target blocks (process_block is_current target block st)

  -- `processEvents`.
  unfoldable pub process_events : Bool → List Text → Stream → Stream
  unfolding split_events process_blocks
  process_events is_current target st =
      let (events, rest) = split_events (length st.buffer) [] st.buffer in
      process_blocks is_current target events (record st { buffer = rest })

  -- A piece of the stream, of a request that is current.
  unfoldable pub receive : List Text → Text → Stream → Stream
  unfolding process_events
  receive target value st = process_events true target (record st { buffer = st.buffer ++ value })

  -- The end of the stream: what is left counts as an event.
  unfoldable pub end_stream : Bool → List Text → Stream → Stream
  unfolding process_events trim
  end_stream is_current target st =
      if not (is_empty (trim st.buffer)) && is_current
      then process_events is_current target (record st { buffer = st.buffer ++ 10 ∷ 10 ∷ [] })
      else st

pub data RetryMode : Type 0 where
  always on_error never : RetryMode

-- Whether a stream that has ended, or an attempt or a stream that has failed, is followed by another
-- attempt.
unfoldable pub retries_after_end : RetryMode → Bool → Bool
retries_after_end always is_current = is_current
retries_after_end on_error is_current = false
retries_after_end never is_current = false

unfoldable pub retries_after_error : RetryMode → Bool → Bool
retries_after_error always is_current = is_current
retries_after_error on_error is_current = is_current
retries_after_error never is_current = false
