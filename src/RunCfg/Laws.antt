-- ===== src/RunCfg/Laws.antt =====
-- bridge/runcfg: stored values, and the claim.
use tg_bale_bridge.Prelude.{
  if◌then◌else◌, Text, text_eq, text_eq_refl, ◌≡◌, refl, true, false, Option, some, arith,
}
use tg_bale_bridge.Prelude.Int.{ℤ, pos, int_eq}
use tg_bale_bridge.Db.{Database}
use tg_bale_bridge.Db.Meta.{get_meta-set_meta}
use tg_bale_bridge.RunCfg.{
  Value, number, admin_entry, key_of, admin_key, admin_id_from, get_json, set_json, admin_tg_id,
  claim_admin,
}

text_eq-key_of : (k j : Text) → text_eq (key_of k) (key_of j) ≡ text_eq k j
unfolding key_of text_eq
text_eq-key_of k j = refl

-- JSON reads back what it has written.
module _ (dumps : Value → Text) (loads : Text → Option Value)
    (loads-dumps : (v : Value) → loads (dumps v) ≡ some v) where
  -- If JSON reads back what it writes, a stored value is what its key gives, whatever the
  -- default, and every other key keeps its value.
  pub get_json-set_json :
      (k j : Text) (v default : Value) (db : Database)
      → get_json dumps loads j default (set_json dumps loads k v db)
        ≡ (if text_eq k j then v else get_json dumps loads j default db)
  unfolding get_json set_json
  get_json-set_json k j v default db = ground (
    arith,
    get_meta-set_meta db (key_of k) (key_of j) (dumps v),
    text_eq-key_of k j,
    loads-dumps v,
  )

  -- If JSON reads back what it writes and nobody is administrator yet, then after somebody,
  -- whose identifier is not 0, has claimed the program, the store names them, and every later
  -- claim fails and changes nothing.
  claim_admin_once :
      (id id' : ℤ) (name name' : Text) (db : Database)
      → int_eq (admin_tg_id dumps loads db) (pos 0) ≡ true
      → int_eq id (pos 0) ≡ false
      → (admin_tg_id dumps loads (claim_admin dumps loads id name db).1 ≡ id)
        × (claim_admin dumps loads id' name' (claim_admin dumps loads id name db).1
            ≡ (false, (claim_admin dumps loads id name db).1))
  unfolding claim_admin admin_tg_id admin_id_from
  claim_admin_once id id' name name' db h k = ground (
    arith,
    get_json-set_json admin_key admin_key (admin_entry id name) (number (pos 0)) db,
    text_eq_refl admin_key,
  )
