-- ===== src/Messenger/Setters.antt =====
-- The setters of the callbacks of toxcore/Messenger.c. `isset` says whether the function that is passed
-- is a function.
use project_tox_core.Prelude.{Bool}
use project_tox_core.FriendRequests.{callback_friendrequest}
use project_tox_core.Messenger.{Messenger, Callbacks}

abbrev pub with_callbacks : Messenger → Callbacks → Messenger
with_callbacks m calls = record m { callbacks = calls }

unfoldable pub m_callback_friendrequest : Messenger → Messenger
m_callback_friendrequest m = record m { fr = callback_friendrequest m.fr }

unfoldable pub m_callback_friendmessage : Messenger → Bool → Messenger
m_callback_friendmessage m isset =
    let calls = m.callbacks in with_callbacks m (record calls { friend_message = isset })

unfoldable pub m_callback_action : Messenger → Bool → Messenger
m_callback_action m isset =
    let calls = m.callbacks in with_callbacks m (record calls { friend_action = isset })

unfoldable pub m_callback_namechange : Messenger → Bool → Messenger
m_callback_namechange m isset =
    let calls = m.callbacks in with_callbacks m (record calls { friend_namechange = isset })

unfoldable pub m_callback_statusmessage : Messenger → Bool → Messenger
m_callback_statusmessage m isset =
    let calls = m.callbacks in
    with_callbacks m (record calls { friend_statusmessagechange = isset })

unfoldable pub m_callback_userstatus : Messenger → Bool → Messenger
m_callback_userstatus m isset =
    let calls = m.callbacks in with_callbacks m (record calls { friend_userstatuschange = isset })

unfoldable pub m_callback_read_receipt : Messenger → Bool → Messenger
m_callback_read_receipt m isset =
    let calls = m.callbacks in with_callbacks m (record calls { read_receipt = isset })

unfoldable pub m_callback_connectionstatus : Messenger → Bool → Messenger
m_callback_connectionstatus m isset =
    let calls = m.callbacks in
    with_callbacks m (record calls { friend_connectionstatuschange = isset })
