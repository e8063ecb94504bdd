-- ===== src/Textfmt/Notices.antt =====
-- The fixed texts of bridge/textfmt and bridge/transfer, by their code points; each comment says
-- what the Persian text means.
use tg_bale_bridge.Prelude.{Text, [], ◌∷◌}

-- the header of a forwarded message, before the name
abbrev pub header_prefix : Text
header_prefix =
    128257 ∷ 32 ∷ 1576 ∷ 1575 ∷ 1586 ∷ 8204 ∷ 1575 ∷ 1585 ∷ 1587 ∷ 1575 ∷ 1604 ∷ 32 ∷ 1575 ∷ 1586
    ∷ 58 ∷ 32 ∷ []

-- the name of an unknown sender
abbrev pub nobody : Text
nobody = 1606 ∷ 1575 ∷ 1588 ∷ 1606 ∷ 1575 ∷ 1587 ∷ []

-- before a poll's question
abbrev pub poll_prefix : Text
poll_prefix = 128202 ∷ 32 ∷ 1606 ∷ 1592 ∷ 1585 ∷ 1587 ∷ 1606 ∷ 1580 ∷ 1740 ∷ 58 ∷ 32 ∷ []

-- a poll that cannot be read
abbrev pub poll_notice : Text
poll_notice =
    128202 ∷ 32 ∷ 1606 ∷ 1592 ∷ 1585 ∷ 1587 ∷ 1606 ∷ 1580 ∷ 1740 ∷ 32 ∷ 1578 ∷ 1604 ∷ 1711 ∷ 1585
    ∷ 1575 ∷ 1605 ∷ []

-- behind an answer's number
abbrev pub keycap : Text
keycap = 65039 ∷ 8419 ∷ 32 ∷ []

-- more than one answer may be chosen
abbrev pub multiple_notice : Text
multiple_notice =
    40 ∷ 1670 ∷ 1606 ∷ 1583 ∷ 32 ∷ 1711 ∷ 1586 ∷ 1740 ∷ 1606 ∷ 1607 ∷ 8204 ∷ 1575 ∷ 1740 ∷ 41 ∷ []

-- before a dice's emoticon
abbrev pub dice_prefix : Text
dice_prefix = 127922 ∷ 32 ∷ 1578 ∷ 1575 ∷ 1587 ∷ 32 ∷ 40 ∷ []

-- a dice that cannot be read
abbrev pub dice_notice : Text
dice_notice = 127922 ∷ 32 ∷ 1578 ∷ 1575 ∷ 1587 ∷ []

-- before a venue's title
abbrev pub venue_prefix : Text
venue_prefix = 128205 ∷ 32 ∷ []

-- a venue that cannot be read
abbrev pub venue_notice : Text
venue_notice = 128205 ∷ 32 ∷ 1605 ∷ 1705 ∷ 1575 ∷ 1606 ∷ []

-- before the name of a service message's action
abbrev pub service_prefix : Text
service_prefix =
    8505 ∷ 65039 ∷ 32 ∷ 1662 ∷ 1740 ∷ 1575 ∷ 1605 ∷ 32 ∷ 1587 ∷ 1585 ∷ 1608 ∷ 1740 ∷ 1587 ∷ 32
    ∷ 1578 ∷ 1604 ∷ 1711 ∷ 1585 ∷ 1575 ∷ 1605 ∷ 32 ∷ 40 ∷ []

-- an action with no name
abbrev pub service_name : Text
service_name = 1587 ∷ 1585 ∷ 1608 ∷ 1740 ∷ 1587 ∷ []

-- an unsupported Telegram message
abbrev pub unsupported_tg_notice : Text
unsupported_tg_notice =
    128206 ∷ 32 ∷ 1662 ∷ 1740 ∷ 1575 ∷ 1605 ∷ 32 ∷ 1662 ∷ 1588 ∷ 1578 ∷ 1740 ∷ 1576 ∷ 1575 ∷ 1606
    ∷ 1740 ∷ 8204 ∷ 1606 ∷ 1588 ∷ 1583 ∷ 1607 ∷ 32 ∷ 1575 ∷ 1586 ∷ 32 ∷ 1578 ∷ 1604 ∷ 1711 ∷ 1585
    ∷ 1575 ∷ 1605 ∷ []

-- before a game's text
abbrev pub game_prefix : Text
game_prefix = 127918 ∷ 32 ∷ 1576 ∷ 1575 ∷ 1586 ∷ 1740 ∷ 58 ∷ 32 ∷ []

-- a game with no text
abbrev pub game_notice : Text
game_notice =
    127918 ∷ 32 ∷ 1576 ∷ 1575 ∷ 1586 ∷ 1740 ∷ 32 ∷ 1578 ∷ 1604 ∷ 1711 ∷ 1585 ∷ 1575 ∷ 1605 ∷ []

-- the media could not be downloaded
abbrev pub download_failed : Text
download_failed =
    9888 ∷ 65039 ∷ 32 ∷ 1583 ∷ 1575 ∷ 1606 ∷ 1604 ∷ 1608 ∷ 1583 ∷ 32 ∷ 1585 ∷ 1587 ∷ 1575 ∷ 1606
    ∷ 1607 ∷ 32 ∷ 1575 ∷ 1586 ∷ 32 ∷ 1578 ∷ 1604 ∷ 1711 ∷ 1585 ∷ 1575 ∷ 1605 ∷ 32 ∷ 1606 ∷ 1575
    ∷ 1605 ∷ 1608 ∷ 1601 ∷ 1602 ∷ 32 ∷ 1576 ∷ 1608 ∷ 1583 ∷ []

-- before the name of a file that is too large
abbrev pub file_prefix : Text
file_prefix = 9888 ∷ 65039 ∷ 32 ∷ 1601 ∷ 1575 ∷ 1740 ∷ 1604 ∷ 32 ∷ 171 ∷ []

-- between the name and the size
abbrev pub upload_size : Text
upload_size = 187 ∷ 32 ∷ 40 ∷ []

-- behind the size: larger than the cap on uploads
abbrev pub upload_suffix : Text
upload_suffix =
    77 ∷ 66 ∷ 41 ∷ 32 ∷ 1576 ∷ 1586 ∷ 1585 ∷ 1711 ∷ 8204 ∷ 1578 ∷ 1585 ∷ 32 ∷ 1575 ∷ 1586 ∷ 32
    ∷ 1587 ∷ 1602 ∷ 1601 ∷ 32 ∷ 1570 ∷ 1662 ∷ 1604 ∷ 1608 ∷ 1583 ∷ 32 ∷ 1576 ∷ 1604 ∷ 1607 ∷ 32
    ∷ 1575 ∷ 1587 ∷ 1578 ∷ 32 ∷ 1608 ∷ 32 ∷ 1605 ∷ 1606 ∷ 1578 ∷ 1602 ∷ 1604 ∷ 32 ∷ 1606 ∷ 1588
    ∷ 1583 ∷ 46 ∷ []

-- behind the size: larger than the cap on downloads
abbrev pub download_suffix : Text
download_suffix =
    77 ∷ 66 ∷ 41 ∷ 32 ∷ 1576 ∷ 1586 ∷ 1585 ∷ 1711 ∷ 8204 ∷ 1578 ∷ 1585 ∷ 32 ∷ 1575 ∷ 1586 ∷ 32
    ∷ 1587 ∷ 1602 ∷ 1601 ∷ 32 ∷ 1583 ∷ 1575 ∷ 1606 ∷ 1604 ∷ 1608 ∷ 1583 ∷ 32 ∷ 1576 ∷ 1604 ∷ 1607
    ∷ 32 ∷ 40 ∷ 1778 ∷ 1776 ∷ 77 ∷ 66 ∷ 41 ∷ 32 ∷ 1575 ∷ 1587 ∷ 1578 ∷ 46 ∷ []

-- a photo was sent as a file
abbrev pub photo_as_file : Text
photo_as_file =
    9888 ∷ 65039 ∷ 32 ∷ 1593 ∷ 1705 ∷ 1587 ∷ 32 ∷ 1576 ∷ 1607 ∷ 8204 ∷ 1589 ∷ 1608 ∷ 1585 ∷ 1578
    ∷ 32 ∷ 1601 ∷ 1575 ∷ 1740 ∷ 1604 ∷ 32 ∷ 1575 ∷ 1585 ∷ 1587 ∷ 1575 ∷ 1604 ∷ 32 ∷ 1588 ∷ 1583 ∷ 46
    ∷ []

-- a video was sent as a file
abbrev pub video_as_file : Text
video_as_file =
    9888 ∷ 65039 ∷ 32 ∷ 1608 ∷ 1740 ∷ 1583 ∷ 1740 ∷ 1608 ∷ 32 ∷ 1576 ∷ 1607 ∷ 8204 ∷ 1589 ∷ 1608
    ∷ 1585 ∷ 1578 ∷ 32 ∷ 1601 ∷ 1575 ∷ 1740 ∷ 1604 ∷ 32 ∷ 1575 ∷ 1585 ∷ 1587 ∷ 1575 ∷ 1604 ∷ 32
    ∷ 1588 ∷ 1583 ∷ 46 ∷ []

-- an animation was sent as a file
abbrev pub gif_as_file : Text
gif_as_file =
    9888 ∷ 65039 ∷ 32 ∷ 1711 ∷ 1740 ∷ 1601 ∷ 32 ∷ 1576 ∷ 1607 ∷ 8204 ∷ 1589 ∷ 1608 ∷ 1585 ∷ 1578
    ∷ 32 ∷ 1601 ∷ 1575 ∷ 1740 ∷ 1604 ∷ 32 ∷ 1575 ∷ 1585 ∷ 1587 ∷ 1575 ∷ 1604 ∷ 32 ∷ 1588 ∷ 1583 ∷ 46
    ∷ []

-- a voice message was sent as a file
abbrev pub voice_as_file : Text
voice_as_file =
    9888 ∷ 65039 ∷ 32 ∷ 1662 ∷ 1740 ∷ 1575 ∷ 1605 ∷ 32 ∷ 1589 ∷ 1608 ∷ 1578 ∷ 1740 ∷ 32 ∷ 1576
    ∷ 1607 ∷ 8204 ∷ 1589 ∷ 1608 ∷ 1585 ∷ 1578 ∷ 32 ∷ 1601 ∷ 1575 ∷ 1740 ∷ 1604 ∷ 32 ∷ 1575 ∷ 1585
    ∷ 1587 ∷ 1575 ∷ 1604 ∷ 32 ∷ 1588 ∷ 1583 ∷ 46 ∷ []

-- a sticker was sent as a file
abbrev pub sticker_as_file : Text
sticker_as_file =
    9888 ∷ 65039 ∷ 32 ∷ 1575 ∷ 1587 ∷ 1578 ∷ 1740 ∷ 1705 ∷ 1585 ∷ 32 ∷ 1576 ∷ 1607 ∷ 8204 ∷ 1589
    ∷ 1608 ∷ 1585 ∷ 1578 ∷ 32 ∷ 1601 ∷ 1575 ∷ 1740 ∷ 1604 ∷ 32 ∷ 1575 ∷ 1585 ∷ 1587 ∷ 1575 ∷ 1604
    ∷ 32 ∷ 1588 ∷ 1583 ∷ 46 ∷ []

-- the caption of a round video sent as a video
abbrev pub round_video : Text
round_video =
    127909 ∷ 32 ∷ 1608 ∷ 1740 ∷ 1583 ∷ 1740 ∷ 1608 ∷ 1740 ∷ 32 ∷ 1583 ∷ 1575 ∷ 1740 ∷ 1585 ∷ 1607
    ∷ 8204 ∷ 1575 ∷ 1740 ∷ []

-- a round video was sent as a file
abbrev pub round_as_file : Text
round_as_file =
    9888 ∷ 65039 ∷ 32 ∷ 1608 ∷ 1740 ∷ 1583 ∷ 1740 ∷ 1608 ∷ 1740 ∷ 32 ∷ 1583 ∷ 1575 ∷ 1740 ∷ 1585
    ∷ 1607 ∷ 8204 ∷ 1575 ∷ 1740 ∷ 32 ∷ 1576 ∷ 1607 ∷ 8204 ∷ 1589 ∷ 1608 ∷ 1585 ∷ 1578 ∷ 32 ∷ 1601
    ∷ 1575 ∷ 1740 ∷ 1604 ∷ 32 ∷ 1575 ∷ 1585 ∷ 1587 ∷ 1575 ∷ 1604 ∷ 32 ∷ 1588 ∷ 1583 ∷ 46 ∷ []

-- an item of an album was not transferred
abbrev pub album_item_failed : Text
album_item_failed =
    9888 ∷ 65039 ∷ 32 ∷ 1740 ∷ 1705 ∷ 1740 ∷ 32 ∷ 1575 ∷ 1586 ∷ 32 ∷ 1601 ∷ 1575 ∷ 1740 ∷ 1604
    ∷ 8204 ∷ 1607 ∷ 1575 ∷ 1740 ∷ 32 ∷ 1570 ∷ 1604 ∷ 1576 ∷ 1608 ∷ 1605 ∷ 32 ∷ 1605 ∷ 1606 ∷ 1578
    ∷ 1602 ∷ 1604 ∷ 32 ∷ 1606 ∷ 1588 ∷ 1583 ∷ []

-- an item of an album was too large
abbrev pub album_item_too_large : Text
album_item_too_large =
    9888 ∷ 65039 ∷ 32 ∷ 1740 ∷ 1705 ∷ 1740 ∷ 32 ∷ 1575 ∷ 1586 ∷ 32 ∷ 1601 ∷ 1575 ∷ 1740 ∷ 1604
    ∷ 8204 ∷ 1607 ∷ 1575 ∷ 1740 ∷ 32 ∷ 1570 ∷ 1604 ∷ 1576 ∷ 1608 ∷ 1605 ∷ 32 ∷ 1576 ∷ 1586 ∷ 1585
    ∷ 1711 ∷ 8204 ∷ 1578 ∷ 1585 ∷ 32 ∷ 1575 ∷ 1586 ∷ 32 ∷ 1587 ∷ 1602 ∷ 1601 ∷ 32 ∷ 1576 ∷ 1604
    ∷ 1607 ∷ 32 ∷ 1576 ∷ 1608 ∷ 1583 ∷ []
