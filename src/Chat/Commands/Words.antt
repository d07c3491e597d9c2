-- ===== src/Chat/Commands/Words.antt =====
-- internal/chat/server.go: the words of the commands, and fixed replies.
use livechat_server.Base.{[], ◌∷◌, Text, codes, if◌then◌else◌, text_eq, ◌||◌}
use livechat_server.Strings.{join}

-- The cases of the switch in `executeCommand`.
pub data Command : Type 0 where
  help nick who rooms join_cmd leave msg topic history me quit whoami ping unknown : Command

unfoldable pub command_of : Text → Command
command_of cmd =
    if text_eq cmd (codes "help")
    then help
    else if text_eq cmd (codes "nick")
    then nick
    else if text_eq cmd (codes "who")
    then who
    else if text_eq cmd (codes "rooms")
    then rooms
    else if text_eq cmd (codes "join")
    then join_cmd
    else if text_eq cmd (codes "leave")
    then leave
    else if text_eq cmd (codes "msg")
    then msg
    else if text_eq cmd (codes "topic")
    then topic
    else if text_eq cmd (codes "history")
    then history
    else if text_eq cmd (codes "me")
    then me
    else if text_eq cmd (codes "quit") || text_eq cmd (codes "exit")
    then quit
    else if text_eq cmd (codes "whoami")
    then whoami
    else if text_eq cmd (codes "ping")
    then ping
    else unknown

unfoldable pub help_text : Text
help_text =
    join
      (codes "Available commands:"
        ∷ codes "/Help                Show this message"
        ∷ codes "/Who [all]           List users in current room or all rooms"
        ∷ codes "/Rooms               List all rooms"
        ∷ codes "/Join <room>         Join or create a room"
        ∷ codes "/Leave               Return to the lobby"
        ∷ codes "/Nick <name>         Change your display name"
        ∷ codes "/Msg <user> <text>   Send a private message"
        ∷ codes "/Topic [text]        View or set the room topic"
        ∷ codes "/History [n]         Show the last n messages from the room"
        ∷ codes "/Me <action>         Share a role-play style action"
        ∷ codes "/Whoami              Display your current identity"
        ∷ codes "/Ping                Check connection health"
        ∷ codes "/Quit                Disconnect from the server"
        ∷ [])
      (10 ∷ [])

abbrev pub not_in_room : Text
not_in_room = codes "You are not inside a room."

abbrev pub join_first : Text
join_first = codes "You are not inside a room. Use /join <room> first."
