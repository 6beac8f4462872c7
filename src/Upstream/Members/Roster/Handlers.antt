-- ===== src/Upstream/Members/Roster/Handlers.antt =====
-- The roster of upstream.go after a whole JOIN, PART, KICK, QUIT or NICK.
use soju_bouncer.Prelude.{◌≡◌, refl, Option, none, List, [], ◌∷◌, Str, str_Eq, ◌∙◌, sym, ap, nat_Eq}
use soju_bouncer.Xirc.CaseMapping.{CaseMapping}
use soju_bouncer.Xirc.CaseMappingMap
use soju_bouncer.Xirc.CaseMappingMap.{CaseMappingMap, Entry}
use soju_bouncer.Upstream.State.{UpstreamConn, UpstreamChannel, get_channel}
use soju_bouncer.Upstream.Members.Roster.{
  Roster, Change, joined, left, added, removed, gone, renamed, members_of, members_at, view, change,
  Follows, IsUniform, Makes,
}

-- Changes one after the other.
abbrev pub changed : CaseMapping → List Change → Roster → Roster
changed cm [] r = r
changed cm (c ∷ cs) r = changed cm cs (change cm c r)

abbrev Agree : Roster → Roster → Type 0
Agree r r' = (k m : Str) → (r.on k ≡ r'.on k) × (r.has k m ≡ r'.has k m)

change-Agree :
    (cm : CaseMapping) (c : Change) (r r' : Roster)
    → Agree r r'
    → Agree (change cm c r) (change cm c r')
change-Agree cm (joined c) r r' h k m = rw ((h k m).0, (h k m).1) (refl, refl)
change-Agree cm (left c) r r' h k m = rw ((h k m).0, (h k m).1) (refl, refl)
change-Agree cm (added c n) r r' h k m = rw ((h k m).0, (h k m).1) (refl, refl)
change-Agree cm (removed c n) r r' h k m = rw ((h k m).0, (h k m).1) (refl, refl)
change-Agree cm (gone n) r r' h k m = rw ((h k m).0, (h k m).1) (refl, refl)
change-Agree cm (renamed n n') r r' h k m = rw ((h k m).0, (h k m).1, (h k n).1) (refl, refl)

changed-Agree :
    (cm : CaseMapping) (cs : List Change) (r r' : Roster)
    → Agree r r'
    → Agree (changed cm cs r) (changed cm cs r')
changed-Agree cm [] r r' h = h
changed-Agree cm (c ∷ cs) r r' h =
    changed-Agree cm cs (change cm c r) (change cm c r') (change-Agree cm c r r' h)

pub record MakesAll (cs : List Change) (uc uc' : UpstreamConn) : Type 0 where
  pub uniform : IsUniform uc'
  pub casemap : uc'.casemap ≡ uc.casemap
  pub follows : Follows uc' (changed uc.casemap cs (view uc))

pub MakesAll-nil : (uc : UpstreamConn) → IsUniform uc → MakesAll [] uc uc
MakesAll-nil uc u = record { uniform = u; casemap = refl; follows = λ k m. (refl, refl) }

pub MakesAll-cons :
    (c : Change) (cs : List Change) (a b d : UpstreamConn)
    → Makes c a b
    → MakesAll cs b d
    → MakesAll (c ∷ cs) a d
MakesAll-cons c cs a b d h t = record {
  uniform = t.uniform;
  casemap = t.casemap ∙ h.casemap;
  follows = λ k m.
      let (o, i) = t.follows k m in
      let (o', i') = changed-Agree b.casemap cs _ _ h.follows k m in
      let same : changed b.casemap cs (change a.casemap c (view a))
          ≡ changed a.casemap cs (change a.casemap c (view a)) =
        ap (λ (cm : CaseMapping). changed cm cs (change a.casemap c (view a))) h.casemap in
      (o ∙ o' ∙ ap (λ (r : Roster). r.on k) same, i ∙ i' ∙ ap (λ (r : Roster). r.has k m) same);
}

-- What follows a step leaves the channels alone.
pub Makes-then :
    (c : Change) (a b d : UpstreamConn)
    → Makes c a b
    → d.channels ≡ b.channels
    → d.casemap ≡ b.casemap
    → Makes c a d
unfolding get_channel
Makes-then c a b d h e f =
    let at : (k : Str) → members_at d k ≡ members_at b k =
      λ k. ap (λ m. members_of (CaseMappingMap.get none m k)) e in
    record {
      uniform = record {
        channels =
            ap (λ (m : CaseMappingMap (Option UpstreamChannel)). m.casemap) e
            ∙ h.uniform.channels
            ∙ sym f;
        members = λ k m q. rw f (h.uniform.members k m (sym (at k) ∙ q));
      };
      casemap = f ∙ h.casemap;
      follows = λ k m. rw (at k) (h.follows k m);
    }
