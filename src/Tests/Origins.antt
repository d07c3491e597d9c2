-- ===== src/Tests/Origins.antt =====
-- A list of origins of internal/config.
use livechat_server.Base.{◌≡◌, refl, [], ◌∷◌, codes, contains}
use livechat_server.Strings.{join, trim_space, trim_left, trim_right, is_space}
use livechat_server.Config.{split_and_trim}
use livechat_server.Config.Origins.{split_and_trim-join}

split_and_trim-join_example :
    split_and_trim (join (codes "http://a" ∷ codes "http://b c" ∷ []) (codes ","))
    ≡ codes "http://a" ∷ codes "http://b c" ∷ []
unfolding contains trim_space trim_left trim_right is_space
split_and_trim-join_example =
    split_and_trim-join (codes "http://a") (codes "http://b c" ∷ [])
      ((refl, refl, refl), ((refl, refl, refl), tt))
