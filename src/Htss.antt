-- ===== src/Htss.antt =====
-- crates/dkgkit-frost/src/lib.rs: hierarchical threshold secret sharing (HTSS). The data that the key
-- generation and the signing share, and the points of a signer set. A random generator is a
-- stream of scalars: the n-th draw is its value at n.
pub mod Keys
pub mod Reconstruct
pub mod Keygen
pub mod Reshare
pub mod Nonces
pub mod Sign
pub mod Local
pub mod Dkg
pub mod Verified
pub mod Commitments
pub mod Senders
pub mod RankZero
pub mod Honest
use dkgkit.Prelude.{ℕ, List, Option, none, some, ◌==◌}
use dkgkit.Core.Error.{
  DkgKitError, missing_ranked_participant, Result, ok, err, ◌>>=◌, ◌>>◌, collect, ok_or,
}
use dkgkit.Core.Ids.{ParticipantId, SessionId, Rank}
use dkgkit.Core.Threshold.{HierarchicalThresholdConfig, rank_of}
use dkgkit.Policy.{validate_hierarchical_signer_set}
use dkgkit.Scalar.{Bytes}
use dkgkit.Birkhoff.{BirkhoffPoint, new_birkhoff_point}

pub record GroupKey : Type 0 where
  pub xonly_public_key : Bytes
  pub verification_key_bytes : Bytes

pub record HtssLocalKeyShare : Type 0 where
  pub participant_id : ParticipantId
  pub rank : ℕ
  -- The derivative share `f^(rank)(x)`.
  pub share_value_bytes : Bytes

pub record HtssLocalKeySet : Type 0 where
  pub group_key : GroupKey
  pub shares : List HtssLocalKeyShare

pub record AggregateSignature : Type 0 where
  pub signature_bytes : Bytes

unfoldable pub signer_point : HierarchicalThresholdConfig → ParticipantId → Result BirkhoffPoint
unfolding new_birkhoff_point
signer_point c signer = do
  rank ← ok_or (rank_of c signer) (missing_ranked_participant signer)
  new_birkhoff_point signer signer rank

unfoldable pub birkhoff_points_from_hierarchical_signer_set :
    List ParticipantId → HierarchicalThresholdConfig → Result (List BirkhoffPoint)
unfolding signer_point
birkhoff_points_from_hierarchical_signer_set signers c = do
  validate_hierarchical_signer_set signers c
  collect (signer_point c) signers
