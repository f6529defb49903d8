-- ===== src/Intelligence/Client/Domain.antt =====
-- apps/web/intelligence/client.ts beside apps/web/protocol/auth.ts: what the two proofs sign.
use terminus_web.Prelude.{◌≢◌, Text, ap, ◌∷◌, ℕ}
use terminus_web.Codec.Base64.{Bytes}
use terminus_web.Machine.Auth.{auth_message}
use terminus_web.Intelligence.Client.{intelligence_message}

-- The byte behind `Terminus/`.
tenth : Bytes → ℕ
tenth (a ∷ b ∷ c ∷ d ∷ e ∷ f ∷ g ∷ h ∷ i ∷ j ∷ rest) = j
tenth _ = 0

-- No message that is signed for the intelligence service is one that is signed for the terminal,
-- whatever the connections, the ids and the challenges, so that neither service's proof serves for
-- the other.
pub domains_are_separate :
    (connection id connection' id' : Text) (challenge challenge' : Bytes)
    → intelligence_message connection id challenge ≢ auth_message connection' id' challenge'
unfolding intelligence_message auth_message tenth
domains_are_separate connection id connection' id' challenge challenge' e = cc (ap tenth e)
