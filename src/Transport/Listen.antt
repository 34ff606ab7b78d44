-- ===== src/Transport/Listen.antt =====
-- `vex_transport_unix_init` returns on every answer of the kernel.
use vexconnect.Prelude.{
  ℕ, ◌-◌, ◌≡◌, ◌⊎◌, inl, inr, refl, List, ◌∷◌, some, false, Ret, ok, err, take, Bool-cases,
}
use vexconnect.Prelude.Int.{ℤ, is_negative}
use vexconnect.Node.{Node}
use vexconnect.System.{Os, History, made_socket, unlinked, bound, listened, closed, set_nonblocking}
use vexconnect.Transport.{unix_init, sun_path_size}

module _ (os : Os) (node : Node) (path : List ℕ) (h : History) where
  abbrev fd : ℤ
  fd = os.socket h

  abbrev address : List ℕ
  address = take (sun_path_size - 1) path

  -- Only the listening descriptor of the node changes; the call succeeds with an open socket that was
  -- bound and listens and is left open, or fails.
  pub unix_init_lem :
      (reply : Ret ℕ) × (h' : History) × (unix_init os node path h
        ≡ some ((reply, record node { listen_fd = fd }), h'))
      × ((reply ≡ err)
          ⊎ ((is_negative fd ≡ false)
              × (h'
                  ≡ set_nonblocking fd
                    ∷ listened fd 5
                    ∷ bound fd address
                    ∷ unlinked path
                    ∷ made_socket
                    ∷ h)))
  unfolding unix_init
  unix_init_lem = elim (Bool-cases (is_negative fd)) [
    | inl bad ↦ (err, made_socket ∷ h, rw bad, inl refl)
    | inr good ↦ elim (Bool-cases (is_negative (os.bind h₂ fd address))) [
      | inl unbound ↦ (err, closed fd ∷ bound fd address ∷ h₂, rw (good, unbound), inl refl)
      | inr at ↦ elim (Bool-cases (is_negative (os.listen h₃ fd 5))) [
        | inl deaf ↦ (err, closed fd ∷ listened fd 5 ∷ h₃, rw (good, at, deaf), inl refl)
        | inr hears ↦
            (ok 0, set_nonblocking fd ∷ listened fd 5 ∷ h₃, rw (good, at, hears), inr (good, refl))
      ]
    ]
  ]
    where
      h₂ : History
      h₂ = unlinked path ∷ made_socket ∷ h

      h₃ : History
      h₃ = bound fd address ∷ h₂
