-- ===== src/Ui.antt =====
-- What the pages of the console share: the feedback line, thrown values, and the effects of a
-- handler on the outside. React applies the setters of a handler together, so a handler is a
-- function from the state of its page to the next state and a list of effects. What react-query
-- keeps (the data of a query, whether a mutation is pending) is an argument.
use poolx.Common.{String}

-- `FeedbackState['tone']`.
pub data Tone : Type 0 where
  success danger info : Tone

-- `FeedbackState`.
pub record FeedbackState : Type 0 where
  pub tone : Tone
  pub message : String

-- A value that a request threw: an `Error` with its message, or anything else.
pub data Thrown : Type 0 where
  an_error : String → Thrown
  anything : Thrown

-- `getErrorMessage` of a page, with the page's own text for what is no `Error`.
abbrev pub message_of : String → Thrown → String
message_of fallback (an_error m) = m
message_of fallback anything = fallback
