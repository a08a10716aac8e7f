-- ===== src/MemberRuntime/Closing.antt =====
-- crates/team/src/member_runtime.rs: `stop` answers every channel that is still open.
use team_lite.Base.{
  Ident, Bool, true, some, List, [], ◌∷◌, ◌≡◌, refl, get, insert, if◌then◌else◌, Option-cases, inl,
  inr, arith, Sorted, Map, same_option, any, values, value_of_any, any_value, get-insert,
}
use team_lite.MemberRuntime.Model.{Registry, MemberRuntimeEntry, AttachSignal, AttachOutcome}
use team_lite.MemberRuntime.Registry.{close_all, open_channel}
use team_lite.MemberRuntime.History.{channel_at}

abbrev pub has_channel : Ident → MemberRuntimeEntry → Bool
has_channel tx e = same_option (some tx) (open_channel e)

pub get-close_all :
    (tx : Ident) (es : List MemberRuntimeEntry) (m : Map AttachSignal)
    → get tx (close_all es m) ≡ (
        if any (has_channel tx) es
        then some (AttachSignal.terminal AttachOutcome.session_stopped)
        else get tx m)
unfolding close_all
get-close_all tx [] m = refl
get-close_all tx (e ∷ es) m = elim (Option-cases (open_channel e)) [
  | inl f ↦ rw f (get-close_all tx es m)
  | inr (c, f) ↦ ground (
    arith,
    f,
    get-close_all tx es (insert c (AttachSignal.terminal AttachOutcome.session_stopped) m),
    get-insert c tx (AttachSignal.terminal AttachOutcome.session_stopped) m,
  )
]

-- The channels that `stop` answers are those that an agent holds.
pub held-closed :
    (r : Registry) (a tx : Ident)
    → channel_at r a ≡ some tx
    → any (has_channel tx) (values r.entries) ≡ true
held-closed r a tx h = elim (Option-cases (get a r.entries)) [
  | inl f ↦ ground (arith, h, f)
  | inr (e, f) ↦ any_value (has_channel tx) a e r.entries f (ground (arith, h, f))
]

pub closed-held :
    (r : Registry) (tx : Ident)
    → Sorted r.entries
    → any (has_channel tx) (values r.entries) ≡ true
    → (a : Ident) × (channel_at r a ≡ some tx)
closed-held r tx s h =
    let (a, e, g, p) = value_of_any (has_channel tx) r.entries s h in (a, ground (arith, g, p))
