-- ===== src/Tests/Directory.antt =====
-- Two sessions that come and go.
use computer_network_final_p.Base.{
  ℕ, ◌≡◌, refl, sym, ◌∙◌, some, Bool-cases, inl, inr, List, [], ◌∷◌, eq_bytes, eq_bytes→eq,
}
use computer_network_final_p.Base.Dict.{find}
use computer_network_final_p.Server.Directory.{
  Call, adds, removes, leaves, lists, counts, dies, Members, calls, all_meant, view, is_there,
  entered, IsMap, AllClear,
}
use computer_network_final_p.Server.Directory.Lookup.{live_one, get_session-live_one}
use computer_network_final_p.Server.Directory.Refine.{view-calls}
use computer_network_final_p.Tests.Server.{start}

abbrev members : Members
members = record { sessions = start.sessions; objects = start.objects }

-- bob's session is taken out by itself, and ann's ends.
abbrev some_calls : List Call
some_calls = leaves 2 ∷ adds (b'v' ∷ []) 1 ∷ dies 0 ∷ counts ∷ removes (b'u' ∷ []) ∷ lists ∷ []

one_each : IsMap members.sessions
unfolding IsMap find eq_bytes
one_each = (refl, (refl, tt))

only_u : (t : List ℕ) → (view members).session t ≡ some 2 → t ≡ b'u' ∷ []
unfolding view find live_one is_there entered
only_u t leads =
    let found = sym (get_session-live_one members.sessions members.objects t) ∙ leads in
    elim (Bool-cases (eq_bytes (b't' ∷ []) t)) [
      | inl ann ↦ absurd (let e = rw ann at found in cc)
      | inr other ↦ elim (Bool-cases (eq_bytes (b'u' ∷ []) t)) [
        | inl bob ↦ sym (eq_bytes→eq _ t bob)
        | inr neither ↦ absurd (let e = rw (other, neither) at found in cc)
      ]
    ]

leaves_clearly : AllClear some_calls (view members)
unfolding AllClear
leaves_clearly = (
  λ t u leads_t leads_u. only_u t leads_t ∙ sym (only_u u leads_u),
  (tt, (tt, (tt, (tt, (tt, tt))))),
)

view-calls_example : view (calls some_calls members) ≡ all_meant some_calls (view members)
view-calls_example = view-calls some_calls members one_each leaves_clearly
