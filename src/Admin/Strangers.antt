-- ===== src/Admin/Strangers.antt =====
-- bridge/admin/facade.py: what texts of strangers can do.
use tg_bale_bridge.Prelude.{
  Bool-cases, select, All, Text, ◌≡◌, refl, ap, ◌⊎◌, inl, inr, Bool, true, false, not, Option, none,
  some, List, [], ◌∷◌, arith,
}
use tg_bale_bridge.Prelude.Int.{ℤ, int_eq}
use tg_bale_bridge.Transfer.Exec.{Env}
use tg_bale_bridge.Admin.{
  Surface, from_bale, from_tgbot, from_saved, Origin, Reply, your_id, Panel, Desk,
}
use tg_bale_bridge.Admin.Facade.{handle}

-- A text that comes in.
pub record Incoming : Type 0 where
  pub surface : Surface
  pub user : ℤ
  pub text : Text
  pub origin : Option Origin

module _ (env : Env) (desk : Desk) where
  -- The texts with their answers, in order, and the panel after them.
  abbrev pub hear_all : List Incoming → Panel → List (Incoming × Option Reply) × Panel
  hear_all [] p = ([], p)
  hear_all (m ∷ ms) p =
      let (reply, p') = handle env desk m.surface m.user m.text m.origin p in
      let (replies, last) = hear_all ms p' in ((m, reply) ∷ replies, last)

  -- The texts of the administrator: those of the saved messages, and on a bot those of the user
  -- whom the configuration names for it.
  abbrev pub is_admins : Incoming → Bool
  is_admins m = elim m.surface [
    | from_saved ↦ true
    | from_bale ↦ int_eq m.user desk.admin_bale_id
    | from_tgbot ↦ int_eq m.user desk.admin_tg_id
  ]

  -- Silence, or the user's own identifier.
  abbrev pub IsNothing : Incoming × Option Reply → Type 0
  IsNothing (m, r) = (r ≡ none) ⊎ (r ≡ some (your_id m.user))

  handle_stranger :
      (s : Surface) (user : ℤ) (text : Text) (msg : Option Origin) (p : Panel)
      → is_admins (record { surface = s; user = user; text = text; origin = msg }) ≡ false
      → ((handle env desk s user text msg p).1 ≡ p)
        × (((handle env desk s user text msg p).0 ≡ none)
            ⊎ ((handle env desk s user text msg p).0 ≡ some (your_id user)))
  unfolding handle
  handle_stranger from_saved user text msg p h = cc
  handle_stranger from_bale user text msg p h = ground (arith, h)
  handle_stranger from_tgbot user text msg p h = ground (arith, h)

  -- Whatever texts come in from whatever users, the panel at the end is the one that the
  -- administrator's texts alone would have left, these texts have the answers that they would
  -- have had alone, and every other text is met with silence or told its user's own identifier.
  -- The administrator's are the texts of the saved messages, and on a bot those of the user whom
  -- the configuration names for it.
  pub hear_all-select :
      (ms : List Incoming) (p : Panel)
      → ((hear_all ms p).1 ≡ (hear_all (select is_admins ms) p).1)
        × (select (λ x. is_admins x.0) (hear_all ms p).0 ≡ (hear_all (select is_admins ms) p).0)
        × All IsNothing (select (λ x. not (is_admins x.0)) (hear_all ms p).0)
  hear_all-select [] p = (refl, refl, tt)
  hear_all-select (m ∷ ms) p = elim (Bool-cases (is_admins m)) [
    | inl t ↦
        let (a, b, c) = hear_all-select ms (handle env desk m.surface m.user m.text m.origin p).1 in
        rw t (
          a,
          ap
              (λ (xs : List (Incoming × Option Reply)).
                (m, (handle env desk m.surface m.user m.text m.origin p).0) ∷ xs)
              b,
          c,
        )
    | inr f ↦
        let (same, reply) = handle_stranger m.surface m.user m.text m.origin p f in
        let (a, b, c) = hear_all-select ms p in rw (f, same) (a, b, (reply, c))
  ]
