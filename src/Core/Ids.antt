-- ===== src/Core/Ids.antt =====
-- crates/dkgkit-core/src/lib.rs: `SessionId`, `ParticipantId`, `Rank` and the two kinds of
-- participant. A newtype over `u16` or `String` is that type; `u16` values are numbers whose
-- range is written out where the code relies on it.
use Prim.Native.Char.{code}
use Prim.Native.String.{String}
use dkgkit.Prelude.{ℕ, Bool, true, ◌||◌, ◌&&◌, Option, ◌==◌, leb, if◌then◌else◌}
use dkgkit.Core.Error.{invalid_participant_id, empty_session_id, Result, ok, err, ◌>>=◌}

abbrev pub SessionId : Type 0
SessionId = String

abbrev pub ParticipantId : Type 0
ParticipantId = ℕ

abbrev pub Rank : Type 0
Rank = ℕ

-- `char::is_whitespace`: the code points with the Unicode property White_Space.
pub is_whitespace : ℕ → Bool
is_whitespace c =
    (leb 9 c && leb c 13)
    || c == 32
    || c == 0x85
    || c == 0xA0
    || c == 0x1680
    || (leb 0x2000 c && leb c 0x200A)
    || c == 0x2028
    || c == 0x2029
    || c == 0x202F
    || c == 0x205F
    || c == 0x3000

-- `value.trim().is_empty()`: nothing is left when each character is white space.
unfoldable pub is_blank : String → Bool
unfolding is_whitespace
is_blank String.[] = true
is_blank (String.◌∷◌ c s) = is_whitespace (code c) && is_blank s

unfoldable pub new_session_id : String → Result SessionId
new_session_id value = if is_blank value then err empty_session_id else ok value

unfoldable pub new_participant_id : ℕ → Result ParticipantId
new_participant_id value = if value == 0 then err (invalid_participant_id value) else ok value

pub record Participant : Type 0 where
  pub id : ParticipantId
  pub label : Option String

unfoldable pub new_participant : ℕ → Option String → Result Participant
unfolding new_participant_id
new_participant id label = do ok (record { id = (← new_participant_id id); label = label })

-- A lower rank is a higher authority; rank 0 is the highest.
pub record RankedParticipant : Type 0 where
  pub id : ParticipantId
  pub rank : Rank
  pub label : Option String

unfoldable pub new_ranked_participant : ℕ → ℕ → Option String → Result RankedParticipant
unfolding new_participant_id
new_ranked_participant id rank label = do
  ok (record { id = (← new_participant_id id); rank = rank; label = label })
