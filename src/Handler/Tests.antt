-- ===== src/Handler/Tests.antt =====
-- What SCPacket sends in a world of two characters.
use simple_poject.Common.{refl}
use simple_poject.World.Frame.{Sends}
use simple_poject.World.Tests.{attacker, victim, pair, pair-IsConsistent}
use simple_poject.World.Lookup.{known}
use simple_poject.Handler.{create_my_character, character_sector_update}
use simple_poject.Handler.Sends.{create_my_character-Sends, character_sector_update-Sends}

character_sector_update-Sends_example : Sends pair (character_sector_update pair victim)
unfolding known
character_sector_update-Sends_example =
    character_sector_update-Sends pair victim pair-IsConsistent refl

create_my_character-Sends_example : Sends pair (create_my_character pair attacker)
unfolding known
create_my_character-Sends_example = create_my_character-Sends pair attacker pair-IsConsistent refl
