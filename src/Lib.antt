-- ===== src/Lib.antt =====
-- MozoLM, a server of character language models: a development that models its C++ code and proves
-- what makes it correct.
--
-- The parts and their files:
-- Base. Lists, integers and the outcomes of calls. A call ends in a value, in a status that is an
-- error, or in a fault, which is undefined behaviour or an uncaught exception.
-- Double. `double` and the functions on it, a parameter; a property names the laws that it needs.
-- Utf8. mozolm/utils/utf8_util.cc. The functions of the utf8cpp library are a parameter.
-- Model. mozolm/models/language_model.h and .cc: the interface of a model as a record of its virtual
-- functions, and ContextState, GetTopHypotheses and SoftmaxRenormalize.
-- Bigram. mozolm/models/simple_bigram_char_model.h and .cc, an implementation of the interface:
-- a vocabulary, and a matrix of counts with the sum of each row. Bigram/Reading is `Read`, with the
-- files as a parameter; the other files hold the invariant, the update and the scores.
-- Bigram/Vocabulary is about the symbols that it reads, Bigram/Indexing about the index of these.
-- Hub. mozolm/models/language_model_hub.h and .cc. A hub state holds one state for each model, and
-- states are linked by the symbols. Hub/State is LanguageModelHubState, Hub.antt the operations of
-- LanguageModelHub on states, Hub/Mixing its InitializeModels and ExtractLMScores, Hub/Mixing/Values the
-- mixing of the scores. Hub/Links,
-- Recycling, Consistent, Placing, Restarting, Slots and Assigning are about AssignNewHubState, which
-- overwrites the oldest state when the hub is full; Stepping, Contexts, Verifying, Initial and
-- Overwriting about the calls from outside, Remembering about the links, which updates keep.
-- Fst. The transducers and symbol tables of OpenFst, a parameter.
-- Ppm. mozolm/models/ppm_as_fst_model.h and .cc: the PPM model, whose counts are the weights of a
-- transducer with back-off arcs. Ppm.antt holds the cache and EnsureCacheAtState, Ppm/Blending the
-- probabilities at a state, Ppm/Scores what is read from the cache (NextState, ExtractLMScores),
-- Ppm/Updating UpdateModel, UpdateLMCounts and GetNegLogProbs. Ppm/Reference calculates the values
-- of a state without a cache; Ppm/Cache, Oldest, Placing, Storing, Fresh and Transparent compare the two,
-- Answers draws on it; Ppm/Serving has calls follow each other; Ppm/Training holds the counts of a
-- trained model and Ppm/Training/Texts the training from texts, Ppm/Ordering the orders of the
-- states, Ppm/Reading Read with the files as a parameter; Ppm/Sized, Ppm/Updating/Orders and Sizes
-- are about the bounds of the model.
-- Ngram. mozolm/models/ngram_fst_model.h and .cc, ngram_char_fst_model.h and .cc: an n-gram model is read
-- from a transducer and answers from it; OpenFst and the OpenGrm n-gram library are a parameter.
-- Ngram/Walks is about NextState, Ngram/Costs about ExtractLMScores.
-- Factory. mozolm/models/model_factory.cc: models of each type behind one interface, and the hub of the
-- configured models.
-- Server. mozolm/grpc/server_async_impl.h and .cc. Server.antt holds the handlers, which call the hub,
-- Server/Queue the completion queue: its operations, the count of pending calls and the flags, with
-- one step for each operation that DriveCQ takes off the queue, one for the flag that Shutdown sets and
-- one for its shutdown of the queue; what gRPC does with an operation that is put into a queue that is
-- shut down is not defined, and has no step. Server/Queue/Pending is about the count,
-- Server/Requests and Updates about requests that follow each other. Server/Helper is
-- mozolm/grpc/server_helper.h and .cc: the credentials, and when a server runs, with
-- Server/Helper/Lifecycle. A call that never returns is a fault.
-- Client. mozolm/grpc/client_async_impl.h and .cc: the requests of a client, over gRPC as a parameter.
-- Client/Helper is mozolm/grpc/client_helper.h and .cc, which generates text and counts bits from the
-- answers, Client/Configuration its credentials and `RunClient`. Client/Requests and
-- Client/Helper/Answers are about how requests end, Client/Served about a client at the server. Below
-- Client/Helper, Positions, Indices, Rounds, Generating, Bits and KBest are about its functions.
--
-- Programs: a C++ `int` that may be negative is a signed integer, a size or an index a natural number.
-- `int64` counts are natural numbers whose sum is a fault where it overflows. A hash map is an
-- association list. Loops are structural recursion; the split of a text runs on as much fuel as the
-- text has bytes and one more, of which each character takes at least one. The recursion along the
-- back-offs of the PPM model has fuel; as many as there are back-offs and one more are enough for
-- EnsureCacheAtState, and more than the rank of the state for the n-gram models. Where the back-offs
-- form a circle the code does not return.
-- A client generates until it has 128 bytes behind the context, and each round adds a byte, so 128
-- rounds are enough.
--
-- Not modelled: the locks (each call of a model holds them throughout), log messages, the
-- inside of gRPC, the commands that turn flags into a configuration, and the thread pool,
-- which is a copy from Abseil.
pub mod Base
pub mod Bigram
pub mod Client
pub mod Double
pub mod Factory
pub mod Fst
pub mod Hub
pub mod Model
pub mod Ngram
pub mod Ppm
pub mod Server
pub mod Utf8
