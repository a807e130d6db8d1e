-- ===== src/Gui/Feed.antt =====
-- The nodes that are read from a subscription whose lines are links.
use redog.Common.{Text, List, [], ◌∷◌, ◌++◌, IsTrimmed, OneLine}
use redog.Gui.Libs.{Values, Codecs}
use redog.Gui.Links.{Link, link_text, Fits}

-- A line for each link.
abbrev pub links_text : List Link → Text
links_text [] = []
links_text (l ∷ ls) = link_text l ++ (b'\n' ∷ links_text ls)

module _ {J Y : Type 0} (lib : Codecs) (json : Values J) (yaml : Values Y) where
  -- A link that its line can carry.
  abbrev pub IsLine : Link → Type 0
  IsLine l = Fits lib l × OneLine (link_text l) × IsTrimmed (link_text l)
