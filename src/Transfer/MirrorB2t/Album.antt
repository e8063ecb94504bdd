-- ===== src/Transfer/MirrorB2t/Album.antt =====
-- bridge/transfer/mirror_b2t.py: albums.
use tg_bale_bridge.Prelude.{
  leb, if◌then◌else◌, length, null, sort_by, Text, ℕ, Bool, true, false, not, ◌&&◌, Option, List,
  [], ◌∷◌, ◌++◌, map,
}
use tg_bale_bridge.Prelude.Int.{ℤ}
use tg_bale_bridge.Textfmt.Splitting.{truncate, join_header}
use tg_bale_bridge.Textfmt.BaleToTg.{bale_text_to_tg}
use tg_bale_bridge.Textfmt.Headers.{bale_forward_header}
use tg_bale_bridge.Transfer.Types.{is_groupable, BaleMsg, Content, bale_content}
use tg_bale_bridge.Transfer.Exec.{
  no_flag, tg_send_file, tg_send_files, Config, Env, M, pure, ◌>>=◌, ◌>>◌, try_catch, gather, ask,
}
use tg_bale_bridge.Transfer.MirrorB2t.{resolve, download, msg_to_tg}

-- A file that is downloaded: its owner, its path and its caption.
pub record AlbumFile : Type 0 where
  pub owner : BaleMsg
  pub path : Text
  pub caption : Text

abbrev owner_id : BaleMsg × ℕ → ℕ
owner_id p = p.0.message_id

-- The kinds of the test in the loop; `is_groupable` names the same four.
fits_album : Config → Content → Bool
fits_album cfg c =
    is_groupable c.kind && (not (null c.file.file_id) && leb c.file.file_size cfg.max_bale_download)

zip_owners : List AlbumFile → List ℕ → List (BaleMsg × ℕ)
zip_owners [] ids = []
zip_owners (f ∷ fs) [] = []
zip_owners (f ∷ fs) (n ∷ ns) = (f.owner, n) ∷ zip_owners fs ns

module _ (env : Env) where
  abbrev album_caption : Text → Content → Text
  album_caption header c =
      truncate (join_header header (bale_text_to_tg c.text).0) env.cfg.limit_caption_group

  -- The loop over the members; only the first one has a forward header.
  take_files : Bool → ℤ → Option ℕ → List BaleMsg → M (List (BaleMsg × ℕ) × List AlbumFile)
  take_files first dst reply_to [] = pure ([], [])
  take_files first dst reply_to (m ∷ ms) =
      if fits_album env.cfg (bale_content m)
      then (do
        path ← download env (bale_content m)
        let header = if first then bale_forward_header m.forward_from_chat m.forward_from else []
        r ← take_files false dst reply_to ms
        pure (
          r.0,
          record { owner = m; path = path; caption = album_caption header (bale_content m) } ∷ r.1,
        ))
      else (do
        ids ← msg_to_tg env m dst reply_to
        r ← take_files false dst reply_to ms
        pure (map (λ i. (m, i)) ids ++ r.0, r.1))

  send_single : ℤ → Option ℕ → AlbumFile → M (List (BaleMsg × ℕ))
  send_single dst reply_to f = do
    t ← ask env.send (tg_send_file no_flag dst f.path f.caption [] reply_to)
    pure ((f.owner, t) ∷ [])

  send_files : ℤ → Option ℕ → List AlbumFile → M (List (BaleMsg × ℕ))
  send_files dst reply_to files =
      if leb 2 (length files)
      then try_catch
          (do
            sent ←
                ask env.send_group
                  (tg_send_files dst (map (λ (f : AlbumFile). (f.path, f.caption)) files) reply_to)
            pure (zip_owners files sent))
          (λ _. gather (send_single dst reply_to) files)
      else gather (send_single dst reply_to) files

  pub album_to_tg : List BaleMsg → ℤ → Option ℕ → M (List (BaleMsg × ℕ))
  unfolding take_files send_files
  album_to_tg msgs dst reply_to = do
    resolve env dst
    r ← take_files true dst reply_to msgs
    sent ← send_files dst reply_to r.1
    pure (sort_by owner_id (r.0 ++ sent))
