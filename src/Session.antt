-- ===== src/Session.antt =====
-- src/market_sentinel/market_data/session.py: the trading day of a timestamp. What `datetime` and
-- `math` compute is an argument of the definitions.
use market_sentinel.Base.{ℕ, String, Bool}
use market_sentinel.Base.Eq.{string_eq, ◌==◌}

-- `datetime.fromtimestamp(t, tz)` at an offset in hours, as the ISO text of its date, and `math.floor`
pub record Platform (F : Type 0) : Type 0 where
  pub date_at : ℕ → F → String
  pub floor : F → F

-- the hours of `_SESSION_TZ`
abbrev pub session_tz : ℕ
session_tz = 8

unfoldable pub session_id : {F : Type 0} → Platform F → F → String
session_id lib t = lib.date_at session_tz t

unfoldable pub is_same_session : {F : Type 0} → Platform F → F → F → Bool
unfolding session_id
is_same_session lib left right = session_id lib left == session_id lib right
