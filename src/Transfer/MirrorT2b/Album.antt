-- ===== src/Transfer/MirrorT2b/Album.antt =====
-- bridge/transfer/mirror_t2b.py: albums.
use tg_bale_bridge.Prelude.{
  leb, if◌then◌else◌, length, take, select, null, sort_by, Text, ℕ, Bool, false, not, Option, none,
  some, List, [], ◌∷◌, ◌++◌, map,
}
use mathlib.Core.Option
use tg_bale_bridge.Textfmt.Splitting.{truncate, join_header}
use tg_bale_bridge.Textfmt.TgToBale.{tg_text_to_bale}
use tg_bale_bridge.Textfmt.Notices.{album_item_failed, album_item_too_large}
use tg_bale_bridge.Transfer.Types.{Kind, is_groupable, TgMsg, tg_kind}
use tg_bale_bridge.Transfer.Exec.{
  Exc, bot_api_error, type_error, value_error, other_error, bale_send_message,
  bale_send_media_group, tg_download_media, File, Env, M, pure, raise, ◌>>=◌, try_catch, gather,
  ask, lift,
}
use tg_bale_bridge.Transfer.MirrorT2b.{tg_forward_header, send_media, msg_to_bale}

-- An entry of the list `results`: a pair, or the bare identifier that
-- `results.extend(await self.msg_to_bale(…))` puts there.
pub data Entry : Type 0 where
  entry : TgMsg → ℕ → Entry
  bare : ℕ → Entry

-- A member of the group that is ready to be sent.
pub record Item : Type 0 where
  pub msg : TgMsg
  pub kind : Kind
  pub file : File
  pub caption : Text

abbrev entry_id : TgMsg × ℕ → ℕ
entry_id p = p.0.id

-- The pairs, if all entries are pairs.
pairs_of : List Entry → Option (List (TgMsg × ℕ))
pairs_of [] = some []
pairs_of (entry m i ∷ es) = Option.map (λ ps. (m, i) ∷ ps) (pairs_of es)
pairs_of (bare i ∷ es) = none

-- `results.sort(key=lambda t: t[0].id)`, which raises at an entry that is a number.
sort_results : List Entry → M (List (TgMsg × ℕ))
unfolding pairs_of
sort_results es = do ps ← lift type_error (pairs_of es); pure (sort_by entry_id ps)

-- `zip(group, sent)`
zip_sent : List Item → List ℕ → List Entry
zip_sent [] ids = []
zip_sent (i ∷ is) [] = []
zip_sent (i ∷ is) (n ∷ ns) = entry i.msg n ∷ zip_sent is ns

abbrev group_call : Item → Kind × Text × Text
group_call i = (i.kind, i.file.path, i.caption)

module _ (env : Env) where
  -- `_send_after_group`: a member that was not downloaded, or is larger than the cap.
  send_after_group : TgMsg → Text → Option File → M (List Entry)
  send_after_group m dst none = do
    s ← ask env.send (bale_send_message dst album_item_too_large none)
    pure (entry m s ∷ [])
  send_after_group m dst (some f) = do
    header ← tg_forward_header env m.forward
    s ←
        send_media env (tg_kind m) dst f.path
          (truncate (join_header header (tg_text_to_bale m.message m.entities))
            env.cfg.limit_caption)
          none f.size
    pure (entry m s ∷ [])

  group_caption : TgMsg → M Text
  group_caption m = if null m.message then pure [] else (do
    header ← tg_forward_header env m.forward
    pure (
        take env.cfg.limit_caption_group
          (join_header header (tg_text_to_bale m.message m.entities))))

  download_all : List TgMsg → M (List (TgMsg × Option File))
  download_all [] = pure []
  download_all (m ∷ ms) = do
    p ← ask env.download (tg_download_media m.id)
    rest ← download_all ms
    pure ((m, p) ∷ rest)

  abbrev joins_group : Option File → Bool
  joins_group none = false
  joins_group (some f) = leb f.size env.cfg.max_bale_upload

  abbrev item_of : TgMsg → Option File → Text → List Item
  item_of m none caption = []
  item_of m (some f) caption =
      record { msg = m; kind = tg_kind m; file = f; caption = caption } ∷ []

  -- The loop over the downloads: the results of the members sent alone, and the group.
  sort_out : Text → List (TgMsg × Option File) → M (List Entry × List Item)
  sort_out dst [] = pure ([], [])
  sort_out dst ((m, p) ∷ rest) =
      if joins_group p
      then (do
        caption ← group_caption m
        r ← sort_out dst rest
        pure (r.0, item_of m p caption ++ r.1))
      else (do sent ← send_after_group m dst p; r ← sort_out dst rest; pure (sent ++ r.0, r.1))

  -- One member of a group that could not be sent as a group.
  send_item : Text → Option ℕ → Item → M (List Entry)
  send_item dst reply_to i = do
    s ←
        try_catch (send_media env i.kind dst i.file.path i.caption reply_to i.file.size)
          (λ _. ask env.send (bale_send_message dst album_item_failed none))
    pure (entry i.msg s ∷ [])

  abbrev group_failed : M (List Entry) → Exc → M (List Entry)
  group_failed fallback bot_api_error = fallback
  group_failed fallback value_error = fallback
  group_failed fallback type_error = fallback
  group_failed fallback other_error = raise other_error

  send_group_of : Text → Option ℕ → List Item → M (List Entry)
  unfolding zip_sent
  send_group_of dst reply_to group =
      if leb 2 (length group)
      then try_catch
          (do
            sent ← ask env.send_group (bale_send_media_group dst (map group_call group) reply_to)
            pure (zip_sent group sent))
          (group_failed (gather (send_item dst reply_to) group))
      else gather (send_item dst reply_to) group

  abbrev bare_entries : List ℕ → List Entry
  bare_entries ids = map bare ids

  send_other : Text → Option ℕ → TgMsg → M (List Entry)
  send_other dst reply_to m = do ids ← msg_to_bale env m dst reply_to; pure (bare_entries ids)

  pub album_to_bale : List TgMsg → Text → Option ℕ → M (List (TgMsg × ℕ))
  unfolding sort_results
  album_to_bale msgs dst reply_to = do
    downloaded ← download_all (select (λ m. is_groupable (tg_kind m)) msgs)
    r ← sort_out dst downloaded
    grouped ← send_group_of dst reply_to r.1
    rest ← gather (send_other dst reply_to) (select (λ m. not (is_groupable (tg_kind m))) msgs)
    sort_results (r.0 ++ (grouped ++ rest))
