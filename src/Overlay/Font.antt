-- ===== src/Overlay/Font.antt =====
-- quest/src/overlay.cpp: the bitmap font, one glyph for a character.
use Prim.Native.String.{String}
use loom_client.Common.{ℕ, Option, get_or, List, [], ◌∷◌}
use loom_client.OrderedMap.{find}
use loom_client.Text.{codes}

-- A character and the seven rows of its glyph.
abbrev glyph :
    String → String → String → String → String → String → String → String → ℕ × List (List ℕ)
glyph k a b c d e f g =
    (get_or (codes k) 0 0, codes a ∷ codes b ∷ codes c ∷ codes d ∷ codes e ∷ codes f ∷ codes g ∷ [])

unfoldable pub glyphs : List (ℕ × List (List ℕ))
glyphs =
    glyph " " "     " "     " "     " "     " "     " "     " "     "
    ∷ glyph "0" " ### " "#   #" "#  ##" "# # #" "##  #" "#   #" " ### "
    ∷ glyph "1" "  #  " " ##  " "  #  " "  #  " "  #  " "  #  " " ### "
    ∷ glyph "2" " ### " "#   #" "    #" "   # " "  #  " " #   " "#####"
    ∷ glyph "3" "#####" "   # " "  #  " "   # " "    #" "#   #" " ### "
    ∷ glyph "4" "   # " "  ## " " # # " "#  # " "#####" "   # " "   # "
    ∷ glyph "5" "#####" "#    " "#### " "    #" "    #" "#   #" " ### "
    ∷ glyph "6" " ### " "#    " "#    " "#### " "#   #" "#   #" " ### "
    ∷ glyph "7" "#####" "    #" "   # " "  #  " " #   " " #   " " #   "
    ∷ glyph "8" " ### " "#   #" "#   #" " ### " "#   #" "#   #" " ### "
    ∷ glyph "9" " ### " "#   #" "#   #" " ####" "    #" "    #" " ### "
    ∷ glyph "." "     " "     " "     " "     " "     " " ##  " " ##  "
    ∷ glyph "%" "##  #" "##  #" "   # " "  #  " " #   " "#  ##" "#  ##"
    ∷ glyph "-" "     " "     " "     " "#####" "     " "     " "     "
    ∷ glyph "a" "     " "     " " ### " "    #" " ####" "#   #" " ####"
    ∷ glyph "b" "#    " "#    " "#### " "#   #" "#   #" "#   #" "#### "
    ∷ glyph "c" "     " "     " " ####" "#    " "#    " "#    " " ####"
    ∷ glyph "d" "    #" "    #" " ####" "#   #" "#   #" "#   #" " ####"
    ∷ glyph "e" "     " "     " " ### " "#   #" "#####" "#    " " ####"
    ∷ glyph "i" "  #  " "     " " ##  " "  #  " "  #  " "  #  " " ### "
    ∷ glyph "k" "#    " "#    " "#  # " "# #  " "##   " "# #  " "#  # "
    ∷ glyph "l" " ##  " "  #  " "  #  " "  #  " "  #  " "  #  " " ### "
    ∷ glyph "m" "     " "     " "## # " "# # #" "# # #" "# # #" "# # #"
    ∷ glyph "o" "     " "     " " ### " "#   #" "#   #" "#   #" " ### "
    ∷ glyph "p" "     " "     " "#### " "#   #" "#### " "#    " "#    "
    ∷ glyph "r" "     " "     " "# ###" "##   " "#    " "#    " "#    "
    ∷ glyph "s" "     " "     " " ####" "#    " " ### " "    #" "#### "
    ∷ glyph "t" " #   " " #   " "#####" " #   " " #   " " #  #" "  ## "
    ∷ []

-- `font().find(c)`
unfoldable pub font : ℕ → Option (List (List ℕ))
unfolding glyphs
font c = find c glyphs
