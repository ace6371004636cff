-- ===== src/Core/Message/Kinds.antt =====
-- crates/dkgkit-core/src/lib.rs: the names of the message kinds read back.
use dkgkit.Prelude.{
  ◌≡◌, refl, ap, Bool, false, List, [], ◌∷◌, String, none, str_eq, find, any, arith,
}
use dkgkit.Core.Message.{
  ProtocolMessageKind, custom, session_manifest, frost_dkg_round1, frost_dkg_round2,
  htss_dkg_round1, htss_dkg_round2, frost_signing_nonce, frost_signature_share, htss_signing_nonce,
  htss_signature_share, as_str, kind_names, or_custom, kind_from,
}

-- A custom kind whose name is that of another kind, or one of the short names.
unfoldable pub is_shadowed : ProtocolMessageKind → Bool
is_shadowed (custom value) = any (λ row. str_eq row.0 value) kind_names
is_shadowed kind = false

find-any :
    (p : String × ProtocolMessageKind → Bool) (rows : List (String × ProtocolMessageKind))
    → any p rows ≡ false
    → find p rows ≡ none
find-any p [] h = refl
find-any p (row ∷ rows) h = ground (arith, find-any p rows)

-- Reading the name of a kind gives the kind back, unless it is a custom kind that bears the name of
-- another kind or a short name.
pub kind_from-as_str :
    (kind : ProtocolMessageKind) → is_shadowed kind ≡ false → kind_from (as_str kind) ≡ kind
unfolding kind_from as_str is_shadowed
kind_from-as_str session_manifest h = refl
kind_from-as_str frost_dkg_round1 h = refl
kind_from-as_str frost_dkg_round2 h = refl
kind_from-as_str htss_dkg_round1 h = refl
kind_from-as_str htss_dkg_round2 h = refl
kind_from-as_str frost_signing_nonce h = refl
kind_from-as_str frost_signature_share h = refl
kind_from-as_str htss_signing_nonce h = refl
kind_from-as_str htss_signature_share h = refl
kind_from-as_str (custom value) h =
    ap (or_custom value) (find-any (λ row. str_eq row.0 value) kind_names h)
