-- ===== src/Tests/Listing.antt =====
-- The online list at a concrete server.
use computer_network_final_p.Base.{
  ◌==◌, ◌∷◌, All, Bool-cases, inl, inr, ℕ, ◌<◌, ◌≡◌, refl, none, some, [], length, arith, subst,
}
use computer_network_final_p.Base.Dict.{find, nat_eq}
use computer_network_final_p.Protocol.Message.{online_list_req}
use computer_network_final_p.Server.Sessions.{TcpSession, Objects}
use computer_network_final_p.Server.Dispatch.{handle_message}
use computer_network_final_p.Server.Listing.{Listed, handle_message-Listed}
use computer_network_final_p.Tests.Auth.{reader}
use computer_network_final_p.Tests.Server.{start, ann, answers}

ann_listed : find 0 start.objects ≡ some ann
unfolding find
ann_listed = refl

-- What holds of every object holds of the object that is found.
find-All :
    (P : TcpSession → Type 0) (objects : Objects) (id : ℕ) (u : TcpSession)
    → All (λ (o : ℕ × TcpSession). P (o.1)) objects
    → find id objects ≡ some u
    → P u
unfolding find
find-All P [] id u holds there = absurd cc
find-All P ((j, v) ∷ rest) id u holds there = elim (Bool-cases (j == id)) [
  | inl same ↦
      let here : some v ≡ some u = rw same at there in
      subst (λ o. elim o [ none ↦ P v | some x ↦ P x ]) here holds.0
  | inr other ↦ find-All P rest id u holds.1 (rw other at there)
]

handle_message-Listed_example :
    Listed start 0 ann (handle_message reader answers start 0 online_list_req [])
handle_message-Listed_example =
    handle_message-Listed reader answers start 0 ann ann_listed (omega arith)
      (λ id u.
        find-All (λ v. length v.username < 65536) start.objects id u
          ((omega arith), ((omega arith), ((omega arith), tt))))
      []
