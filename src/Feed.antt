-- ===== src/Feed.antt =====
-- c/engines/glm.c: how the bytes of the emitted tokens drive the walker of the grammar drafts.
-- The bytes of a token are those that `tok_decode` of c/tok/tok.h writes into a buffer of 64.
use moty.Base.{ℕ, Bool, true, false, not, List, [], ◌∷◌, if◌then◌else◌}
use moty.Grammar.Syntax.{Grammar}
use moty.Grammar.Walker.{
  Walk, ok, ◌>>=◌, State, Outcome, consumed, refused, off, state_init, accept,
}
use moty.Tok.Table.{Tok}
use moty.Tok.Decode.{tok_decode}
pub mod Follows
mod Tests

-- `g_gr_on`, `g_gr_armed` and `g_gst`.
pub record Drafts : Type 0 where
  pub on : Bool
  pub armed : Bool
  pub gst : State

abbrev pub is_consumed : Outcome → Bool
is_consumed consumed = true
is_consumed refused = false
is_consumed off = false

module _ (g : Grammar) where
  -- `grammar_reset`
  unfoldable pub grammar_reset : Drafts → Walk Drafts
  grammar_reset d =
      if d.on
      then (state_init g >>= λ st. ok (record { on = st.alive; armed = false; gst = st }))
      else ok d

  -- The end of the loop of `gr_feed`, for a byte that is refused after the arming.
  unfoldable pub rearm : ℕ → Walk Drafts
  rearm b = state_init g >>= λ st. elim st.alive [
    | false ↦ ok (record { on = false; armed = false; gst = st })
    | true ↦ accept g b st >>= λ r. ok (record { on = true; armed = is_consumed r.0; gst = r.1 })
  ]

  -- One round of the loop of `gr_feed`, while the drafts are on.
  unfoldable pub feed_byte : Drafts → ℕ → Walk Drafts
  feed_byte d b = accept g b d.gst >>= λ r. elim r.0 [
    | consumed ↦ ok (record d { armed = true; gst = r.1 })
    | off ↦ ok (record d { on = false; gst = r.1 })
    | refused ↦ if d.armed then rearm b else ok (record d { gst = r.1 })
  ]

  -- The loop of `gr_feed`, which stops where the drafts are switched off.
  unfoldable pub feed_bytes : List ℕ → Drafts → Walk Drafts
  feed_bytes [] d = ok d
  feed_bytes (b ∷ bs) d = if d.on then (feed_byte d b >>= feed_bytes bs) else ok d

  -- `gr_feed` of a token: the 63 bytes at most that fit the buffer `b`.
  unfoldable pub gr_feed : Tok → ℕ → Drafts → Walk Drafts
  gr_feed T t d = if d.on then feed_bytes (tok_decode T (t ∷ []) 63) d else ok d
