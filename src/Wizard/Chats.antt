-- ===== src/Wizard/Chats.antt =====
-- bridge/wizard: the other conversations, the pairs and the account under messages and buttons.
use tg_bale_bridge.Prelude.{
  All, Text, codes, text_eq, ◌≡◌, refl, ◌∙◌, false, Option, some, List, [], ◌∷◌,
}
use tg_bale_bridge.Prelude.Int.{ℤ}
use tg_bale_bridge.Db.{PairRow, Table, Database}
use tg_bale_bridge.RunCfg.{
  Value, null_value, get_json, set_json, set_tg_api, set_tg_self, set_bale_self, set_bale_bot,
}
use tg_bale_bridge.Wizard.{Conv, Outside, Wiz, chat_key, conv_of, set_conv, conv_at-put_conv}
use tg_bale_bridge.Wizard.Apart.{IsApart}
use tg_bale_bridge.Wizard.Pairing.{Forwarded}
use tg_bale_bridge.Wizard.Conversation.{handle_text}
use tg_bale_bridge.RunCfg.Laws.{get_json-set_json}
use tg_bale_bridge.Db.Meta.{get_meta, set_meta}
use tg_bale_bridge.Wizard.Far.{IsFar}
use tg_bale_bridge.Wizard.Safety.{
  Event, message, button, NobodySignsIn, event, events, account, text-far, text_refused-far,
}
use tg_bale_bridge.Wizard.Safety.{message, button}
use tg_bale_bridge.Wizard.Buttons.{IsFarther, button-far}

-- The keys of the chats differ.
abbrev Elsewhere : ℤ → ℤ → Type 0
Elsewhere c c' = text_eq (chat_key c) (chat_key c') ≡ false

conv_of-Elsewhere :
    (c c' : ℤ) (w : Wiz) (v : Conv) → Elsewhere c c' → conv_of c' (set_conv c v w) ≡ conv_of c' w
conv_of-Elsewhere c c' w v h = rw (conv_at-put_conv c c' v w.convs, h)

conv_of-IsApart : (c' : ℤ) → IsApart (conv_of c')
conv_of-IsApart c' = record {
  quiet = record { said_apart = λ w l. refl; asked_apart = λ w l. refl };
  cfg_apart = λ w i h. refl;
  pending_apart = λ w d. refl;
  txn_apart = λ w t. refl;
}

pairs_of : Wiz → Table PairRow
pairs_of w = w.db.pairs

pairs_of-IsApart : IsApart pairs_of
unfolding pairs_of
pairs_of-IsApart = record {
  quiet = record { said_apart = λ w l. refl; asked_apart = λ w l. refl };
  cfg_apart = λ w i h. refl;
  pending_apart = λ w d. refl;
  txn_apart = λ w t. refl;
}

set_json-apart :
    (dumps : Value → Text) (loads : Text → Option Value) (k : Text) (v : Value) (db : Database)
    → (set_json dumps loads k v db).pairs ≡ db.pairs
unfolding set_json set_meta
set_json-apart dumps loads k v db = refl

module _ (dumps : Value → Text) (loads : Text → Option Value) (env : Outside) where
  conv_of-IsFarther : (c c' : ℤ) → Elsewhere c c' → IsFarther dumps loads c (conv_of c')
  conv_of-IsFarther c c' h = record {
    far = record {
      apart = conv_of-IsApart c';
      conv_apart = λ w v. conv_of-Elsewhere c c' w v h;
      api_apart = λ w i t. refl;
      bale_self_apart = λ w p. refl;
      bot_apart = λ w t n. refl;
    };
    done_apart = λ w v. refl;
    pairs_apart = λ w d. refl;
    restart_apart = λ w b. refl;
  }

  pairs_of-IsFar : (c : ℤ) → IsFar dumps loads c pairs_of
  unfolding pairs_of set_tg_api set_bale_self set_bale_bot
  pairs_of-IsFar c = record {
    apart = pairs_of-IsApart;
    conv_apart = λ w v. refl;
    api_apart = λ w i t. set_json-apart dumps loads _ _ w.db;
    bale_self_apart = λ w p. set_json-apart dumps loads _ _ w.db;
    bot_apart = λ w t n. set_json-apart dumps loads _ _ w.db;
  }

  handle_text-Elsewhere :
      (c c' : ℤ) (t : Text) (f : Forwarded) (w : Wiz)
      → Elsewhere c c'
      → conv_of c' (event dumps loads env (message c t f) w) ≡ conv_of c' w
  unfolding event
  handle_text-Elsewhere c c' t f w h =
      (text-far dumps loads env c (conv_of c') (conv_of-IsFarther c c' h).far (λ w p. refl) t
          f).kept
        w

  handle_callback-Elsewhere :
      (c c' : ℤ) (p : Text) (w : Wiz)
      → Elsewhere c c'
      → conv_of c' (event dumps loads env (button c p) w) ≡ conv_of c' w
  unfolding event
  handle_callback-Elsewhere c c' p w h =
      (button-far dumps loads env c (conv_of c') (conv_of-IsFarther c c' h) p).kept w

  handle_text_pairs :
      (c : ℤ) (t : Text) (f : Forwarded) (w : Wiz)
      → (handle_text dumps loads env c t f w).1.db.pairs ≡ w.db.pairs
  unfolding pairs_of set_tg_self
  handle_text_pairs c t f w =
      (text-far dumps loads env c pairs_of (pairs_of-IsFar c)
          (λ w p. set_json-apart dumps loads _ _ w.db) t f).kept
        w

  abbrev chat_of : Event → ℤ
  chat_of (message c t f) = c
  chat_of (button c p) = c

  -- Messages and buttons of chats with other keys leave the conversation of a chat as it was.
  pub events-Elsewhere :
      (c' : ℤ) (es : List Event) (w : Wiz)
      → All (λ e. Elsewhere (chat_of e) c') es
      → conv_of c' (events dumps loads env es w) ≡ conv_of c' w
  unfolding events
  events-Elsewhere c' [] w h = refl
  events-Elsewhere c' (message c t f ∷ es) w h =
      events-Elsewhere c' es _ h.1 ∙ handle_text-Elsewhere c c' t f w h.0
  events-Elsewhere c' (button c p ∷ es) w h =
      events-Elsewhere c' es _ h.1 ∙ handle_callback-Elsewhere c c' p w h.0

module _ (dumps : Value → Text) (loads : Text → Option Value)
    (loads-dumps : (v : Value) → loads (dumps v) ≡ some v) (env : Outside) where
  account-IsApart : IsApart (account dumps loads env)
  account-IsApart = record {
    quiet = record { said_apart = λ w l. refl; asked_apart = λ w l. refl };
    cfg_apart = λ w i h. refl;
    pending_apart = λ w d. refl;
    txn_apart = λ w t. refl;
  }

  other_key :
      (k : Text) (v : Value) (w : Wiz)
      → text_eq k (codes "tg_self") ≡ false
      → account dumps loads env (record w { db = set_json dumps loads k v w.db })
        ≡ account dumps loads env w
  other_key k v w h =
      rw (get_json-set_json dumps loads loads-dumps k (codes "tg_self") v null_value w.db, h)

  other_table :
      (w : Wiz) (d : Table PairRow)
      → account dumps loads env (record w { db = record w.db { pairs = d } })
        ≡ account dumps loads env w
  unfolding get_json get_meta
  other_table w d = refl

  account-IsFarther : (c : ℤ) → IsFarther dumps loads c (account dumps loads env)
  unfolding set_tg_api set_bale_self set_bale_bot text_eq
  account-IsFarther c = record {
    far = record {
      apart = account-IsApart;
      conv_apart = λ w v. refl;
      api_apart = λ w i t. other_key _ _ w refl;
      bale_self_apart = λ w p. other_key _ _ w refl;
      bot_apart = λ w t n. other_key _ _ w refl;
    };
    done_apart = λ w v. other_key _ _ w refl;
    pairs_apart = λ w d. other_table w d;
    restart_apart = λ w b. refl;
  }

  -- If JSON reads back what it writes and Telegram accepts no code and no password, then
  -- whatever messages and buttons come in from whatever chats, the stored Telegram account stays
  -- as it was.
  pub account_unsigned :
      (es : List Event) (w : Wiz)
      → NobodySignsIn env
      → account dumps loads env (events dumps loads env es w) ≡ account dumps loads env w
  unfolding events event
  account_unsigned [] w n = refl
  account_unsigned (message c t f ∷ es) w n =
      account_unsigned es _ n
      ∙ (text_refused-far dumps loads env c (account dumps loads env) (account-IsFarther c).far n t
            f).kept
          w
  account_unsigned (button c p ∷ es) w n =
      account_unsigned es _ n
      ∙ (button-far dumps loads env c (account dumps loads env) (account-IsFarther c) p).kept w
