-- ===== src/Api/Modes.antt =====
-- The mode over the interface: what a change does, and what is read back.
use redog.Common.{
  false, Bool-cases, Text, codes, none, some, text_eq, text_eq_iff, inl, inr, ◌≡◌, ◌≢◌, refl,
}
use redog.Tunnel.Routing.{Mode, rule, global, direct_mode}
use redog.Api.State.{ApiState, json, status_only, config_mode}
use redog.Api.Server.{mode_name, mode_of_name, get_configs, patch_configs}

mode_of_name-mode_name : (m : Mode) → mode_of_name (mode_name m) ≡ some m
unfolding mode_of_name mode_name text_eq
mode_of_name-mode_name rule = refl
mode_of_name-mode_name global = refl
mode_of_name-mode_name direct_mode = refl

other_eq : (name word : Text) → name ≢ word → text_eq name word ≡ false
other_eq name word n = elim (Bool-cases (text_eq name word)) [
  | inl t ↦ absurd (n ((text_eq_iff name word).0 t))
  | inr f ↦ f
]

mode_of_name-none : (name : Text) → ((m : Mode) → name ≢ mode_name m) → mode_of_name name ≡ none
unfolding mode_of_name mode_name
mode_of_name-none name n =
    rw
      (
        other_eq name (codes "rule") (n rule),
        other_eq name (codes "global") (n global),
        other_eq name (codes "direct") (n direct_mode),
      )
      refl

module _ {S D : Type 0} where
  -- A change to the name of a mode is answered with 204, the mode is the only thing changed, and
  -- its name is read back. Every other name is answered with 400 and changes nothing.
  pub patch_configs_lem :
      (s : ApiState S D)
      → ((m : Mode)
          → (patch_configs (some (mode_name m)) s ≡ (record s { mode = m }, status_only 204))
            × (get_configs (patch_configs (some (mode_name m)) s).0
                ≡ json (config_mode (mode_name m))))
        × ((name : Text)
            → ((m : Mode) → name ≢ mode_name m)
            → patch_configs (some name) s ≡ (s, status_only 400))
  unfolding patch_configs get_configs
  patch_configs_lem s = (
    λ m. (
      rw (mode_of_name-mode_name m, patch_configs) refl,
      rw (mode_of_name-mode_name m, patch_configs) refl,
    ),
    λ name n. rw (mode_of_name-none name n, patch_configs) refl,
  )
