-- ===== src/Upstream/Registration/More.antt =====
-- upstream.go, CAP LS: whether more lines follow.
use soju_bouncer.Prelude.{◌≡◌, refl, [], ◌∷◌, Str, codes, str_Eq}
use soju_bouncer.Prelude.Text.{to_upper}
use soju_bouncer.Irc.{message}
use soju_bouncer.Upstream.State.{UpstreamConn, Network}
use soju_bouncer.Upstream.Registration.{handle_cap, has_more}

-- The marker of a CAP LS reply that more lines follow is not looked at: a reply with any other
-- text in its place does the same.
pub handle_cap-marker :
    (net : Network) (uc : UpstreamConn) (target caps marker other : Str)
    → handle_cap net uc (message (codes "CAP") (target ∷ codes "LS" ∷ marker ∷ caps ∷ []))
      ≡ handle_cap net uc (message (codes "CAP") (target ∷ codes "LS" ∷ other ∷ caps ∷ []))
unfolding handle_cap has_more to_upper
handle_cap-marker net uc target caps marker other = refl
